-- ===== src/Base/Maps.antt =====
-- A hash map as an association list. The order of the list stands for the iteration order, which
-- the source leaves to the hash. Keys are kept distinct by `insert`.
use Prim.Native.Nat.{suc, ◌≤◌, ◌<◌}
use mathlib.Core.Path.{◌≡◌, refl}
use mathlib.Core.Bool.{Bool}
use mathlib.Core.Logic.{ite}
use mathlib.Core.Option.{Option, none, some}
use mathlib.Core.List.{List, [], ◌∷◌}
use native.Mathlib.Omega.{arith}
use muxr_core.Base.Keys.{Key}
use muxr_core.Base.Lists.{length}
use muxr_core.Base.Tests.{if◌then◌else◌, is_some}

abbrev pub Map {ℓ} : Type ℓ → Type ℓ → Type ℓ
Map K V = List (K × V)

-- `Option::filter`.
abbrev pub filtered {ℓ} : {V : Type ℓ} → (V → Bool) → Option V → Option V
filtered p none = none
filtered p (some v) = if p v then some v else none

module _ {ℓ} {K V : Type ℓ} ⦃key : Key K⦄ where
  unfoldable pub lookup : K → Map K V → Option V
  lookup k [] = none
  lookup k ((j, v) ∷ m) = ite (key.same k j) (some v) (lookup k m)

  -- Overwrites the entry in place, or adds one behind the others.
  unfoldable pub insert : K → V → Map K V → Map K V
  insert k v [] = (k, v) ∷ []
  insert k v ((j, w) ∷ m) = ite (key.same k j) ((j, v) ∷ m) ((j, w) ∷ insert k v m)

  unfoldable pub remove : K → Map K V → Map K V
  remove k [] = []
  remove k ((j, w) ∷ m) = let rest = remove k m in ite (key.same k j) rest ((j, w) ∷ rest)

  pub lookup-insert :
      (k j : K) (v : V) (m : Map K V)
      → lookup j (insert k v m) ≡ ite (key.same j k) (some v) (lookup j m)
  unfolding lookup insert
  lookup-insert k j v [] = refl
  lookup-insert k j v ((i, w) ∷ m) = ground (arith, lookup-insert k j v m)

  pub lookup-remove :
      (k j : K) (m : Map K V) → lookup j (remove k m) ≡ ite (key.same j k) none (lookup j m)
  unfolding lookup remove
  lookup-remove k j [] = ground arith
  lookup-remove k j ((i, w) ∷ m) = ground (arith, lookup-remove k j m)

  -- `HashMap::retain`, with a test on the value.
  unfoldable pub retain : (V → Bool) → Map K V → Map K V
  retain p [] = []
  retain p ((j, w) ∷ m) = let rest = retain p m in if p w then (j, w) ∷ rest else rest

  -- `HashMap::retain`, with a test on the key.
  unfoldable pub retain_keys : (K → Bool) → Map K V → Map K V
  retain_keys p [] = []
  retain_keys p ((j, w) ∷ m) = let rest = retain_keys p m in if p j then (j, w) ∷ rest else rest

  pub lookup-retain_keys :
      (p : K → Bool) (j : K) (m : Map K V)
      → lookup j (retain_keys p m) ≡ (if p j then lookup j m else none)
  unfolding lookup retain_keys
  lookup-retain_keys p j [] = ground arith
  lookup-retain_keys p j ((i, w) ∷ m) = ground (arith, lookup-retain_keys p j m)

  -- No two entries have one key.
  abbrev pub Distinct : Map K V → Type ℓ
  Distinct [] = Unit
  Distinct ((j, w) ∷ m) = (lookup j m ≡ none) × Distinct m

  pub insert-Distinct : (k : K) (v : V) (m : Map K V) → Distinct m → Distinct (insert k v m)
  unfolding insert lookup
  insert-Distinct k v [] d = (refl, tt)
  insert-Distinct k v ((j, w) ∷ m) d =
      ground (arith, insert-Distinct k v m d.1, lookup-insert k j v m)

  pub remove-Distinct : (k : K) (m : Map K V) → Distinct m → Distinct (remove k m)
  unfolding remove
  remove-Distinct k [] d = tt
  remove-Distinct k ((j, w) ∷ m) d = ground (arith, remove-Distinct k m d.1, lookup-remove k j m)

  lookup-retain-none :
      (p : V → Bool) (j : K) (m : Map K V) → lookup j m ≡ none → lookup j (retain p m) ≡ none
  unfolding lookup retain
  lookup-retain-none p j [] h = refl
  lookup-retain-none p j ((i, w) ∷ m) h = ground (arith, lookup-retain-none p j m)

  pub retain-Distinct : (p : V → Bool) (m : Map K V) → Distinct m → Distinct (retain p m)
  unfolding retain
  retain-Distinct p [] d = tt
  retain-Distinct p ((j, w) ∷ m) d =
      ground (arith, retain-Distinct p m d.1, lookup-retain-none p j m)

  pub lookup-retain :
      (p : V → Bool) (j : K) (m : Map K V)
      → Distinct m
      → lookup j (retain p m) ≡ filtered p (lookup j m)
  unfolding lookup retain
  lookup-retain p j [] d = refl
  lookup-retain p j ((i, w) ∷ m) d =
      ground (arith, lookup-retain p j m d.1, lookup-retain-none p j m)

  pub length-insert :
      (k : K) (v : V) (m : Map K V)
      → length (insert k v m) ≡ (if is_some (lookup k m) then length m else suc (length m))
  unfolding lookup insert
  length-insert k v [] = refl
  length-insert k v ((j, w) ∷ m) = ground (arith, length-insert k v m)

  pub length-remove : (k : K) (m : Map K V) → length (remove k m) ≤ length m
  unfolding remove
  length-remove k [] = omega arith
  length-remove k ((j, w) ∷ m) = ground (arith, length-remove k m)

  pub length-remove_lt :
      (k : K) (v : V) (m : Map K V) → lookup k m ≡ some v → length (remove k m) < length m
  unfolding remove lookup
  length-remove_lt k v [] h = cc
  length-remove_lt k v ((j, w) ∷ m) h = ground (arith, length-remove k m, length-remove_lt k v m)

  pub length-retain : (p : V → Bool) (m : Map K V) → length (retain p m) ≤ length m
  unfolding retain
  length-retain p [] = omega arith
  length-retain p ((j, w) ∷ m) = ground (arith, length-retain p m)

pub ruleset maps = (lookup-insert, lookup-remove)
