-- ===== src/Auth.antt =====
-- muxrd/src/auth.rs: the layer that asks every RPC for a bearer token. The checks of tokens are
-- zellij's, over its database, and may fail.
pub mod Gate
use muxr_core.Base.{
  ◌≡◌, ℕ, String, string_discrete, Option, none, some, Bool, true, false, ◌==◌, List, [], ◌∷◌, ite,
  if◌then◌else◌,
}
use muxr_core.Routing.Names.{Bytes, is_empty}

-- `validate_session_token` and `is_session_token_read_only`; none is an error of the database.
pub record Tokens : Type 0 where
  pub validate : Bytes → Option Bool
  pub is_read_only : Bytes → Option Bool

-- The authorization header of a request.
pub data Header : Type 0 where
  absent : Header
  not_ascii : Header
  text : Bytes → Header

pub data AuthError : Type 0 where
  missing_header : AuthError
  invalid_ascii : AuthError
  wrong_scheme : AuthError
  empty_token : AuthError
  database_error : AuthError
  invalid_token : AuthError

-- "Bearer "
abbrev pub bearer : Bytes
bearer = 66 ∷ 101 ∷ 97 ∷ 114 ∷ 101 ∷ 114 ∷ 32 ∷ []

unfoldable pub strip_prefix : Bytes → Bytes → Option Bytes
strip_prefix [] bs = some bs
strip_prefix (p ∷ ps) [] = none
strip_prefix (p ∷ ps) (b ∷ bs) = let rest = strip_prefix ps bs in if p == b then rest else none

pub data Checked : Type 0 where
  accepted : Bool → Bytes → Checked
  denied : AuthError → Checked

-- The flag counts as set when the database fails.
unfoldable pub read_only_or_true : Option Bool → Bool
read_only_or_true none = true
read_only_or_true (some b) = b

unfoldable pub check_token : Tokens → Bytes → Checked
unfolding read_only_or_true
check_token tokens token =
    if is_empty token then denied empty_token else (elim (tokens.validate token) [
      | none ↦ denied database_error
      | some valid ↦
          if valid
          then accepted (read_only_or_true (tokens.is_read_only token)) token
          else denied invalid_token
    ])

unfoldable pub check_bearer : Tokens → Header → Checked
unfolding strip_prefix check_token
check_bearer tokens absent = denied missing_header
check_bearer tokens not_ascii = denied invalid_ascii
check_bearer tokens (text value) = elim (strip_prefix bearer value) [
  | none ↦ denied wrong_scheme
  | some token ↦ check_token tokens token
]

unfoldable pub is_public : String → Bool
is_public path =
    ite (string_discrete path "/muxr.v1.Muxr/GetVersion") true
      (ite (string_discrete path "/muxr.v1.Muxr/Login") true false)

-- The extensions that a handler reads.
pub record Extensions : Type 0 where
  pub read_only : Option Bool
  pub token : Option Bytes

abbrev pub no_extensions : Extensions
no_extensions = record { read_only = none; token = none }

pub data Passed : Type 0 where
  forwarded : Extensions → Passed
  rejected : AuthError → Passed

unfoldable pub call : Tokens → String → Header → Passed
unfolding is_public check_bearer
call tokens path header =
    if is_public path then forwarded no_extensions else (elim (check_bearer tokens header) [
      | accepted read_only token ↦
          forwarded (record { read_only = some read_only; token = some token })
      | denied e ↦ rejected e
    ])
