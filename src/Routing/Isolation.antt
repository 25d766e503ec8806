-- ===== src/Routing/Isolation.antt =====
-- muxrd/src/grpc/helpers.rs: a caller reaches no relay but its own, or one of its session that may
-- write.
use muxr_core.Base.{
  ◌≡◌, ◌⊎◌, ℕ, String, none, some, Bool, true, false, arith, [], ◌∷◌, lookup, Distinct, string_key,
  inl, inr, ◌||◌, Option-cases, Bool-cases, ◌↔◌, ◌&&◌, not,
}
use muxr_core.Routing.Names.{Bytes}
use muxr_core.Routing.Session.{is_collapsed_backend_session}
use muxr_core.Relay.Wire.{ControlEntry}
use muxr_core.Routing.Control.{
  ControlRegistry, of_session, exact_match, writable, send_or, try_route_control,
}

-- The entry of the registry under the caller's own id, for the session named.
abbrev pub Own : ControlRegistry → Bytes → String → ℕ → Type 0
Own control session connection_id a =
    (e : ControlEntry) × (lookup connection_id control ≡ some e)
    × (e.session ≡ session)
    × (e.sender ≡ a)

exact_match-Own :
    (control : ControlRegistry) (session : Bytes) (id : String) (a : ℕ)
    → exact_match control session id ≡ some a
    → Own control session id a
unfolding exact_match
exact_match-Own control session id a h = elim (Option-cases (lookup id control)) [
  | inl n ↦ ground arith
  | inr (e, n) ↦ (e, n, ground arith, ground arith)
]

-- An entry of the session for a relay that may write.
abbrev pub Writable : ControlRegistry → Bytes → ℕ → Type 0
Writable control session a =
    (k : String) × (e : ControlEntry) × (lookup k control ≡ some e)
    × (e.session ≡ session)
    × (e.read_only ≡ false)
    × (e.sender ≡ a)

writable-Writable :
    (control : ControlRegistry) (session : Bytes) (a : ℕ)
    → Distinct control
    → writable control session ≡ some a
    → Writable control session a
unfolding writable lookup
writable-Writable [] session a d h = ground arith
writable-Writable ((k, e) ∷ m) session a d h =
    elim (Bool-cases (of_session session e && not e.read_only)) [
      | inl t ↦ (k, e, ground arith, ground arith, ground arith, ground arith)
      | inr f ↦
          let w = writable-Writable m session a d.1 (ground arith) in
          (w.0, w.1, ground (arith, w.2, d.0), w.3, w.4, w.5)
    ]

confined :
    (alive : ℕ → Bool) (control : ControlRegistry) (session : Bytes) (id : String) (ro : Bool)
    (a : ℕ)
    → (ro || is_collapsed_backend_session session) ≡ true
    → (try_route_control alive control session id ro).queued ≡ some a
    → exact_match control session id ≡ some a
unfolding try_route_control send_or
confined alive control session id ro a h q = ground arith

-- A caller that may only read, or one of a session that all connections share, has its command
-- queued at most on the channel that is registered under its own connection id for the session.
pub try_route_control-Own :
    (alive : ℕ → Bool) (control : ControlRegistry) (session : Bytes) (id : String)
    (read_only : Bool) (a : ℕ)
    → (read_only || is_collapsed_backend_session session) ≡ true
    → (try_route_control alive control session id read_only).queued ≡ some a
    → Own control session id a
try_route_control-Own alive control session id ro a h q =
    exact_match-Own control session id a (confined alive control session id ro a h q)

open_route :
    (alive : ℕ → Bool) (control : ControlRegistry) (session : Bytes) (id : String) (ro : Bool)
    (a : ℕ)
    → (try_route_control alive control session id ro).queued ≡ some a
    → (exact_match control session id ≡ some a) ⊎ (writable control session ≡ some a)
unfolding try_route_control send_or
open_route alive control session id ro a q = ground arith

-- Whoever calls, a command is queued only on the caller's own channel for the session or on one of
-- a relay of the same session that may write, when the registry has one entry per connection.
pub try_route_control-Writable :
    (alive : ℕ → Bool) (control : ControlRegistry) (session : Bytes) (id : String)
    (read_only : Bool) (a : ℕ)
    → Distinct control
    → (try_route_control alive control session id read_only).queued ≡ some a
    → Own control session id a ⊎ Writable control session a
try_route_control-Writable alive control session id ro a d q =
    elim (open_route alive control session id ro a q) [
      | inl e ↦ inl (exact_match-Own control session id a e)
      | inr w ↦ inr (writable-Writable control session a d w)
    ]

-- A caller that may only read is left without an answer exactly if the session is not a shared one
-- and the caller's own channel is registered for it but closed.
pub try_route_control_unanswered :
    (alive : ℕ → Bool) (control : ControlRegistry) (session : Bytes) (id : String)
    → ((try_route_control alive control session id true).ack ≡ none) ↔ (
        (is_collapsed_backend_session session ≡ false)
        × (a : ℕ) × (exact_match control session id ≡ some a)
        × (alive a ≡ false))
unfolding try_route_control send_or
try_route_control_unanswered alive control session id = (
  λ h. elim (Option-cases (exact_match control session id)) [
    | inl n ↦ ground arith
    | inr (a, n) ↦ (ground arith, a, n, ground arith)
  ],
  λ (c, a, n, d). ground arith,
)
