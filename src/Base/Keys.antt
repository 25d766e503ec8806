-- ===== src/Base/Keys.antt =====
-- Types whose values serve as keys of a map.
use Prim.Native.Nat.{ℕ}
use Prim.Native.String.{String}
use mathlib.Core.Path.{◌≡◌}
use mathlib.Core.Bool.{Bool, true, false}
use native.Mathlib.Decide.{ℕ_discrete}
use text.Mathlib.Text.{◌==◌ as str_eq}
use text.Mathlib.TextEquality.{eq_iff}

pub record Key {ℓ} (K : Type ℓ) : Type ℓ where
  pub same : Discrete K

decide_string : (s t : String) (b : Bool) → str_eq s t ≡ b → Dec (s ≡ t)
decide_string s t true e = yes ((eq_iff s t).0 e)
decide_string s t false e = no (λ p. cc ((eq_iff s t).1 p))

unfoldable pub string_discrete : Discrete String
unfolding decide_string
string_discrete s t = decide_string s t (str_eq s t) (λ i. str_eq s t)

instance abbrev pub nat_key : Key ℕ
nat_key = record { same = ℕ_discrete }

instance abbrev pub string_key : Key String
string_key = record { same = string_discrete }
