-- ===== src/Base/Sets.antt =====
-- A hash set as a list without repetitions. The order of the list stands for the iteration order,
-- which the source leaves to the hash.
use mathlib.Core.Path.{◌≡◌, refl}
use mathlib.Core.Bool.{Bool, true, false, ◌&&◌, ◌||◌}
use mathlib.Core.Logic.{ite}
use mathlib.Core.List.{List, [], ◌∷◌, ◌++◌}
use native.Mathlib.Omega.{arith}
use muxr_core.Base.Keys.{Key}
use muxr_core.Base.Tests.{if◌then◌else◌, is_some}
use muxr_core.Base.Maps.{Map, lookup}

module _ {K : Type 0} ⦃key : Key K⦄ where
  unfoldable pub contains : K → List K → Bool
  contains k [] = false
  contains k (j ∷ s) = ite (key.same k j) true (contains k s)

  -- `HashSet::insert`, which does nothing when the key is there.
  unfoldable pub add : K → List K → List K
  unfolding contains
  add k s = if contains k s then s else k ∷ s

  -- `HashSet::remove`, and `Vec::retain` with the test that the element is not the key.
  unfoldable pub discard : K → List K → List K
  discard k [] = []
  discard k (j ∷ s) = let rest = discard k s in ite (key.same k j) rest (j ∷ rest)

  -- `Vec::retain`, with a test on the element.
  unfoldable pub keep : (K → Bool) → List K → List K
  keep p [] = []
  keep p (j ∷ s) = let rest = keep p s in if p j then j ∷ rest else rest

  abbrev pub NoRepeat : List K → Type 0
  NoRepeat [] = Unit
  NoRepeat (j ∷ s) = (contains j s ≡ false) × NoRepeat s

  pub contains-add :
      (k j : K) (s : List K) → contains j (add k s) ≡ ite (key.same j k) true (contains j s)
  unfolding contains add
  contains-add k j s = ground arith

  pub contains-discard :
      (k j : K) (s : List K) → contains j (discard k s) ≡ ite (key.same j k) false (contains j s)
  unfolding contains discard
  contains-discard k j [] = ground arith
  contains-discard k j (i ∷ s) = ground (arith, contains-discard k j s)

  pub contains-append :
      (j : K) (s t : List K) → contains j (s ++ t) ≡ (contains j s || contains j t)
  unfolding contains
  contains-append j [] t = refl
  contains-append j (i ∷ s) t = ground (arith, contains-append j s t)

  pub contains-keep :
      (p : K → Bool) (j : K) (s : List K) → contains j (keep p s) ≡ (contains j s && p j)
  unfolding contains keep
  contains-keep p j [] = refl
  contains-keep p j (i ∷ s) = ground (arith, contains-keep p j s)

  pub keep-NoRepeat : (p : K → Bool) (s : List K) → NoRepeat s → NoRepeat (keep p s)
  unfolding keep
  keep-NoRepeat p [] n = tt
  keep-NoRepeat p (i ∷ s) n = ground (arith, keep-NoRepeat p s n.1, contains-keep p i s)

  pub keep-none :
      (p : K → Bool) (s : List K) → ((j : K) → contains j s ≡ true → p j ≡ false) → keep p s ≡ []
  unfolding keep contains
  keep-none p [] h = refl
  keep-none p (i ∷ s) h = ground (arith, h i, keep-none p s (λ j e. ground (arith, h j)))

  -- The keys of a map.
  abbrev pub keys {κ} : {V : Type κ} → List (K × V) → List K
  keys [] = []
  keys ((j, v) ∷ m) = j ∷ keys m

  pub contains-keys :
      {V : Type 0} (j : K) (m : Map K V) → contains j (keys m) ≡ is_some (lookup j m)
  unfolding contains lookup
  contains-keys j [] = refl
  contains-keys j ((i, v) ∷ m) = ground (arith, contains-keys j m)
