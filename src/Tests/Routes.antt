-- ===== src/Tests/Routes.antt =====
-- The witnesses of muxrd/src/multiplexer/routing.rs and muxrd/src/grpc/helpers.rs.
use muxr_core.Base.{
  ◌≡◌, ◌≢◌, ◌⊎◌, ◌↔◌, refl, ℕ, string_key, string_discrete, ℕ_discrete, none, some, Bool, true,
  false, [], ◌∷◌, ◌++◌, All, lookup, Distinct,
}
use muxr_core.Routing.Names.{
  Bytes, bytes_discrete, Harmless, validate_session_name, is_name_byte,
  validate_session_name-Harmless,
}
use muxr_core.Routing.Session.{
  zellij, herdr, kind_name, BackendSet, get, resolve_session_kind, resolved, make_id,
  is_collapsed_backend_session, split_once,
}
use muxr_core.Routing.Resolve.{
  resolve_session_kind-make_id, resolve_session_kind-Harmless, is_collapsed_backend_session-make_id,
}
use muxr_core.Routing.Control.{ControlRegistry, exact_match, writable, try_route_control}
use muxr_core.Routing.Isolation.{
  Own, Writable, try_route_control-Own, try_route_control-Writable, try_route_control_unanswered,
}

-- "dev"
abbrev dev : Bytes
dev = 100 ∷ 101 ∷ 118 ∷ []

abbrev session : Bytes
session = kind_name zellij ++ 58 ∷ dev

abbrev backends : BackendSet ℕ
backends = (zellij, 0) ∷ (herdr, 1) ∷ []

abbrev lax : Bytes → Bool
lax name = true

dev_valid : validate_session_name lax dev ≡ true
unfolding validate_session_name is_name_byte
dev_valid = refl

zellij_runs : get backends zellij ≡ some 0
unfolding get
zellij_runs = refl

validate_session_name-Harmless_example : (dev ≢ []) × All Harmless dev
validate_session_name-Harmless_example = validate_session_name-Harmless lax dev dev_valid

resolve_session_kind-make_id_example :
    resolve_session_kind lax backends (make_id zellij dev) ≡ resolved zellij 0 dev
resolve_session_kind-make_id_example =
    resolve_session_kind-make_id lax backends zellij 0 dev zellij_runs dev_valid

resolve_session_kind-Harmless_example : (dev ≢ []) × All Harmless dev
resolve_session_kind-Harmless_example =
    resolve_session_kind-Harmless lax backends (make_id zellij dev) zellij 0 dev
      resolve_session_kind-make_id_example

is_collapsed_backend_session-make_id_example :
    (is_collapsed_backend_session (make_id herdr dev) ≡ true)
    × (is_collapsed_backend_session (make_id zellij dev) ≡ false)
is_collapsed_backend_session-make_id_example = is_collapsed_backend_session-make_id dev

abbrev registry : ControlRegistry
registry =
    ("c1", record { session = session; sender = 11; read_only = true })
    ∷ ("c2", record { session = session; sender = 12; read_only = false })
    ∷ []

registry-Distinct : Distinct registry
unfolding lookup string_discrete
registry-Distinct = (refl, (refl, tt))

viewer_queued : (try_route_control (λ a. true) registry session "c1" true).queued ≡ some 11
unfolding try_route_control exact_match lookup string_discrete bytes_discrete ℕ_discrete
    is_collapsed_backend_session split_once
viewer_queued = refl

try_route_control-Own_example : Own registry session "c1" 11
try_route_control-Own_example =
    try_route_control-Own (λ a. true) registry session "c1" true 11 refl viewer_queued

fallback_queued : (try_route_control (λ a. true) registry session "" false).queued ≡ some 12
unfolding try_route_control exact_match writable lookup string_discrete bytes_discrete ℕ_discrete
    is_collapsed_backend_session split_once
fallback_queued = refl

try_route_control-Writable_example : Own registry session "" 12 ⊎ Writable registry session 12
try_route_control-Writable_example =
    try_route_control-Writable (λ a. true) registry session "" false 12 registry-Distinct
      fallback_queued

try_route_control_unanswered_example :
    ((try_route_control (λ a. false) registry session "c1" true).ack ≡ none) ↔ (
      (is_collapsed_backend_session session ≡ false)
      × (a : ℕ) × (exact_match registry session "c1" ≡ some a)
      × (false ≡ false))
try_route_control_unanswered_example =
    try_route_control_unanswered (λ a. false) registry session "c1"
