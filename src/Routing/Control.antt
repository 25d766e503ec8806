-- ===== src/Routing/Control.antt =====
-- muxrd/src/grpc/helpers.rs: which relay carries out a command, and what the caller is told. A text
-- of the acknowledgement is a constructor here.
use muxr_core.Base.{
  ℕ, String, Option, none, some, Bool, true, false, ◌&&◌, not, [], ◌∷◌, Map, lookup, string_key,
  if◌then◌else◌, ite, string_discrete,
}
use muxr_core.Routing.Names.{Bytes, bytes_discrete}
use muxr_core.Relay.Wire.{ControlEntry}
use muxr_core.Routing.Session.{is_collapsed_backend_session}

abbrev pub ControlRegistry : Type 0
ControlRegistry = Map String ControlEntry

pub data Ack : Type 0 where
  per_connection : Ack
  session_fallback : Ack
  reattach_required : Ack

-- The channel that the command was queued on, and the answer; none leaves the caller to go on
-- without a relay.
pub record Routing : Type 0 where
  pub queued : Option ℕ
  pub ack : Option Ack

abbrev pub reattach : Routing
reattach = record { queued = none; ack = some reattach_required }

abbrev pub of_session : Bytes → ControlEntry → Bool
of_session session e = ite (bytes_discrete e.session session) true false

unfoldable pub exact_match : ControlRegistry → Bytes → String → Option ℕ
exact_match control session connection_id =
    ite (string_discrete connection_id "") none (elim (lookup connection_id control) [
      | none ↦ none
      | some e ↦ if of_session session e then some e.sender else none
    ])

-- The first relay of the session that may write, in the order of the map's iteration.
unfoldable pub writable : ControlRegistry → Bytes → Option ℕ
writable [] session = none
writable ((k, e) ∷ m) session =
    if of_session session e && not e.read_only then some e.sender else writable m session

-- `alive` tells whether a channel still has its receiver.
unfoldable pub send_or : (ℕ → Bool) → ℕ → Ack → Routing → Routing
send_or alive a ack otherwise =
    if alive a then record { queued = some a; ack = some ack } else otherwise

abbrev pub no_relay : Routing
no_relay = record { queued = none; ack = none }

unfoldable pub try_route_control : (ℕ → Bool) → ControlRegistry → Bytes → String → Bool → Routing
unfolding exact_match writable send_or
try_route_control alive control session connection_id read_only =
    if is_collapsed_backend_session session
    then (elim (exact_match control session connection_id) [
      | none ↦ reattach
      | some a ↦ send_or alive a per_connection reattach
    ])
    else (elim (exact_match control session connection_id) [
      | some a ↦ send_or alive a per_connection no_relay
      | none ↦ if read_only then reattach else (elim (writable control session) [
        | none ↦ no_relay
        | some a ↦ send_or alive a session_fallback no_relay
      ])
    ])

-- The request's extension that the layer for tokens sets; when it is absent the caller counts as
-- one that may only read.
unfoldable pub session_is_read_only : Option Bool → Bool
session_is_read_only none = true
session_is_read_only (some read_only) = read_only

pub data Denied : Type 0 where
  token_read_only : Denied
  extension_absent : Denied

unfoldable pub reject_if_read_only : Option Bool → Option Denied
reject_if_read_only none = some extension_absent
reject_if_read_only (some true) = some token_read_only
reject_if_read_only (some false) = none
