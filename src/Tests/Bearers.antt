-- ===== src/Tests/Bearers.antt =====
-- The witness of muxrd/src/auth.rs.
use muxr_core.Base.{
  ◌≡◌, refl, string_discrete, String, none, some, true, false, is_some, [], ◌∷◌, ◌++◌,
}
use muxr_core.Routing.Names.{Bytes}
use muxr_core.Routing.Control.{reject_if_read_only}
use muxr_core.Auth.{Tokens, Header, text, bearer, Extensions, forwarded, call}
use muxr_core.Auth.Gate.{Authentic, call-reject_if_read_only}

abbrev tokens : Tokens
tokens = record { validate = λ t. some true; is_read_only = λ t. some false }

abbrev token : Bytes
token = 120 ∷ 121 ∷ []

abbrev header : Header
header = text (bearer ++ token)

abbrev path : String
path = "/muxr.v1.Muxr/ClosePane"

abbrev extensions : Extensions
extensions = record { read_only = some false; token = some token }

passes : call tokens path header ≡ forwarded extensions
unfolding call string_discrete
passes = refl

allowed : reject_if_read_only extensions.read_only ≡ none
unfolding reject_if_read_only
allowed = refl

call-reject_if_read_only_example :
    (is_some extensions.token ≡ true)
    × ((t : Bytes)
        → extensions.token ≡ some t
        → Authentic tokens header t × (tokens.is_read_only t ≡ some false))
call-reject_if_read_only_example =
    call-reject_if_read_only tokens path header extensions passes allowed
