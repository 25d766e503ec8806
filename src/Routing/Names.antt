-- ===== src/Routing/Names.antt =====
-- muxrd/src/ipc.rs, muxrd/src/grpc/helpers.rs: the names that a client may give. Texts are lists of
-- their UTF-8 bytes.
use muxr_core.Base.{
  ◌≡◌, ◌≢◌, ℕ, ◌<◌, Option, none, some, Bool, true, false, ◌==◌, ◌||◌, ◌&&◌, not, leb, ltb, List,
  [], ◌∷◌, length, all, All, zero, suc, if◌then◌else◌, ℕ_discrete, arith,
}

abbrev pub Bytes : Type 0
Bytes = List ℕ

unfoldable pub bytes_discrete : Discrete Bytes
bytes_discrete = hlevel ℕ_discrete

abbrev between : ℕ → ℕ → ℕ → Bool
between lo hi b = leb lo b && leb b hi

-- `u8::is_ascii_alphanumeric`, an underscore or a dash.
unfoldable pub is_name_byte : ℕ → Bool
is_name_byte b = between 48 57 b || between 65 90 b || between 97 122 b || b == 95 || b == 45

abbrev pub is_empty : Bytes → Bool
is_empty [] = true
is_empty (b ∷ bs) = false

abbrev pub is_bare_name : Bytes → Bool
is_bare_name name = not (is_empty name) && all is_name_byte name

-- `zellij_valid` is the check of zellij's own library.
unfoldable pub validate_session_name : (Bytes → Bool) → Bytes → Bool
validate_session_name zellij_valid name = if zellij_valid name then is_bare_name name else false

unfoldable pub validate_layout_name : Bytes → Bool
validate_layout_name layout = is_bare_name layout

abbrev pub max_display_name_len : ℕ
max_display_name_len = 128

-- `has_control` tells whether one of the text's characters is a control character.
pub data NameError : Type 0 where
  empty : NameError
  too_long : NameError
  control_character : NameError

unfoldable pub validate_display_name : (Bytes → Bool) → Bytes → Option NameError
validate_display_name has_control name =
    if is_empty name
    then some empty
    else (if ltb max_display_name_len (length name)
        then some too_long
        else (if has_control name then some control_character else none))

abbrev pub take : ℕ → Bytes → Bytes
take zero bs = []
take (suc n) [] = []
take (suc n) (b ∷ bs) = b ∷ take n bs

-- The first bytes of an id, for a log.
unfoldable pub short_conn : Bytes → Bytes
short_conn id = take 8 id

-- A byte that no name has: a slash, a dot, a colon, a backslash, white space or a control character.
abbrev pub Harmless : ℕ → Type 0
Harmless b = (b ≢ 47) × (b ≢ 46) × (b ≢ 58) × (b ≢ 92) × (32 < b) × (b < 127)

name_byte-Harmless : (b : ℕ) → is_name_byte b ≡ true → Harmless b
unfolding is_name_byte
name_byte-Harmless b h = (
  λ e. ground arith,
  λ e. ground arith,
  λ e. ground arith,
  λ e. ground arith,
  ground arith,
  ground arith,
)

all-Harmless : (bs : Bytes) → all is_name_byte bs ≡ true → All Harmless bs
all-Harmless [] h = tt
all-Harmless (b ∷ bs) h = (name_byte-Harmless b (ground arith), all-Harmless bs (ground arith))

-- A session name that is accepted has no byte of a path, a pattern or an escape, whatever the check
-- of zellij lets through.
pub validate_session_name-Harmless :
    (zellij_valid : Bytes → Bool) (name : Bytes)
    → validate_session_name zellij_valid name ≡ true
    → (name ≢ []) × All Harmless name
unfolding validate_session_name
validate_session_name-Harmless zv [] h = (λ e. ground arith, ground arith)
validate_session_name-Harmless zv (b ∷ bs) h = (λ e. cc, all-Harmless (b ∷ bs) (ground arith))
