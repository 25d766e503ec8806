-- ===== src/Base/Strings.antt =====
-- Functions of Rust's `str` that the parts use.
use Prim.Native.Nat.{ℕ}
use Prim.Native.String.{String}
use Prim.Native.Char.{Char, code}
use mathlib.Core.Bool.{Bool, true, false, ◌&&◌, ◌||◌}
use mathlib.Core.Option.{Option, none, some}
use muxr_core.Base.Tests.{if◌then◌else◌, ◌==◌, leb}

-- `str::is_empty`.
abbrev pub is_empty_str : String → Bool
is_empty_str String.[] = true
is_empty_str (String.◌∷◌ c s) = false

-- `str::replace`, of one character by another.
unfoldable pub replace : Char → Char → String → String
replace from to String.[] = String.[]
replace from to (String.◌∷◌ c s) =
    let rest = replace from to s in String.◌∷◌ (if code c == code from then to else c) rest

-- `Option::filter` with the test that the text is not empty.
abbrev pub non_empty : Option String → Option String
non_empty none = none
non_empty (some s) = if is_empty_str s then none else some s

-- `char::is_whitespace`: Unicode's White_Space.
unfoldable pub is_whitespace : ℕ → Bool
is_whitespace c =
    (leb 9 c && leb c 13)
    || c == 32
    || c == 133
    || c == 160
    || c == 5760
    || (leb 8192 c && leb c 8202)
    || c == 8232
    || c == 8233
    || c == 8239
    || c == 8287
    || c == 12288

-- `str::trim_end`.
unfoldable pub trim_end : String → String
unfolding is_whitespace
trim_end String.[] = String.[]
trim_end (String.◌∷◌ c s) =
    let rest = trim_end s in
    if is_empty_str rest && is_whitespace (code c) then String.[] else String.◌∷◌ c rest
