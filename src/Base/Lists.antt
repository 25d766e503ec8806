-- ===== src/Base/Lists.antt =====
-- Lists measured by native numbers, and predicates on them.
use Prim.Native.Nat.{ℕ, zero, suc, ◌+◌}
use mathlib.Core.Path.{◌≡◌, subst}
use mathlib.Core.Option.{Option, none, some}
use mathlib.Core.Bool.{Bool, true, ◌&&◌}
use mathlib.Core.List.{List, [], ◌∷◌, ◌++◌}
use native.Mathlib.Omega.{arith}

module _ {ℓ} {A : Type ℓ} where
  abbrev pub length : List A → ℕ
  length [] = 0
  length (x ∷ xs) = suc (length xs)

  pub length-append : (xs ys : List A) → length (xs ++ ys) ≡ length xs + length ys
  length-append [] ys = omega arith
  length-append (x ∷ xs) ys = omega (arith, length-append xs ys)

  -- `Iterator::all`.
  abbrev pub all : (A → Bool) → List A → Bool
  all p [] = true
  all p (x ∷ xs) = p x && all p xs

  abbrev pub All {κ} : (A → Type κ) → List A → Type κ
  All P [] = Unit
  All P (x ∷ xs) = P x × All P xs

  unfoldable pub get_elem? : List A → ℕ → Option A
  get_elem? [] i = none
  get_elem? (x ∷ xs) zero = some x
  get_elem? (x ∷ xs) (suc i) = get_elem? xs i

  unfoldable pub remove_at : ℕ → List A → List A
  remove_at i [] = []
  remove_at zero (x ∷ xs) = xs
  remove_at (suc i) (x ∷ xs) = x ∷ remove_at i xs

module _ {ℓ κ} {A : Type ℓ} (P : A → Type κ) where
  pub All-get_elem? : (n : ℕ) (gs : List A) (g : A) → get_elem? gs n ≡ some g → All P gs → P g
  unfolding get_elem?
  All-get_elem? n [] g h a = cc
  All-get_elem? zero (x ∷ gs) g h a = subst P (ground arith) a.0
  All-get_elem? (suc n) (x ∷ gs) g h a = All-get_elem? n gs g h a.1

  pub All-remove_at : (n : ℕ) (gs : List A) → All P gs → All P (remove_at n gs)
  unfolding remove_at
  All-remove_at n [] a = a
  All-remove_at zero (x ∷ gs) a = a.1
  All-remove_at (suc n) (x ∷ gs) a = (a.0, All-remove_at n gs a.1)

  pub All-mono : (Q : A → Type κ) (gs : List A) → ((g : A) → P g → Q g) → All P gs → All Q gs
  All-mono Q [] f a = a
  All-mono Q (x ∷ gs) f a = (f x a.0, All-mono Q gs f a.1)
