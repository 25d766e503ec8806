-- ===== src/Relay/Inbound/Registry.antt =====
-- muxrd/src/relay/inbound.rs: what the loop does to the shared registries, and when it ends.
use muxr_core.Base.{
  ◌≡◌, ◌≢◌, refl, sym, ap, ◌∙◌, String, string_key, none, Bool, true, false, arith, List, [], ◌∷◌,
  All, Bool-cases, Option-cases, inl, inr, lookup, lookup-insert, lookup-remove, is_some,
}
use muxr_core.Relay.Fullscreen.{RelayViewState}
use muxr_core.Routing.Names.{Bytes}
use muxr_core.Relay.Wire.{
  Event, reader_tick, evicted, recheck, command, frame, stream_error, stream_end, Backend,
  Connection, Loop, checked,
}
use muxr_core.Relay.Control.{update_view, tear_down, revalidate_token}
use muxr_core.Relay.Inbound.Keeps.{turn_keeps}
use muxr_core.Relay.Inbound.{turn, inbound_loop, inbound_loop_keeps}

-- The entries of the connection `other` are those that `s₀` has.
pub record Unchanged (s₀ : Loop) (other : String) (s : Loop) : Type 0 where
  pub view : lookup other s.view_state ≡ lookup other s₀.view_state
  pub control : lookup other s.control ≡ lookup other s₀.control

-- Once the loop has ended, the connection has no entry.
pub record Closed (c : Connection) (s : Loop) : Type 0 where
  pub view : s.running ≡ false → lookup c.connection_id s.view_state ≡ none
  pub control : s.running ≡ false → lookup c.connection_id s.control ≡ none

module _ (s₀ : Loop) (other : String) (c : Connection) (apart : other ≢ c.connection_id) where
  update_view-Unchanged :
      (f : RelayViewState → RelayViewState) (s : Loop)
      → Unchanged s₀ other s
      → Unchanged s₀ other (update_view f c s)
  unfolding update_view
  update_view-Unchanged f s v = elim (Option-cases (lookup c.connection_id s.view_state)) [
    | inl h ↦ rw (update_view, h) v
    | inr (e, h) ↦
        rw (update_view, h)
          (record {
            view = ground (
              arith,
              v.view,
              lookup-insert c.connection_id other (record e { state = f e.state }) s.view_state,
            );
            control = v.control;
          })
  ]

  tear_down-Unchanged : (s : Loop) → Unchanged s₀ other s → Unchanged s₀ other (tear_down c s)
  unfolding tear_down
  tear_down-Unchanged s v = record {
    view = ground (arith, v.view, lookup-remove c.connection_id other s.view_state);
    control = ground (arith, v.control, lookup-remove c.connection_id other s.control);
  }

-- The loop of a connection changes neither the view state nor the control channel of any other.
pub inbound_loop-Unchanged :
    (is_utf8 : Bytes → Bool) (c : Connection) (es : List (Backend × Event)) (s : Loop)
    (other : String)
    → other ≢ c.connection_id
    → (lookup other (inbound_loop is_utf8 c es s).view_state ≡ lookup other s.view_state)
      × (lookup other (inbound_loop is_utf8 c es s).control ≡ lookup other s.control)
inbound_loop-Unchanged is_utf8 c es s other apart =
    let v : Unchanged s other (inbound_loop is_utf8 c es s) =
      inbound_loop_keeps is_utf8 c (Unchanged s other)
        (λ b e t.
          turn_keeps (Unchanged s other) c
            (λ x y p q r u. record {
              view = ap (lookup other) p ∙ u.view;
              control = ap (lookup other) q ∙ u.control;
            })
            (update_view-Unchanged s other c apart) (tear_down-Unchanged s other c apart) is_utf8 b
            e t)
        es s (record { view = refl; control = refl }) in
    (v.view, v.control)

module _ (c : Connection) where
  update_view-Closed :
      (f : RelayViewState → RelayViewState) (s : Loop) → Closed c s → Closed c (update_view f c s)
  unfolding update_view
  update_view-Closed f s v = elim (Option-cases (lookup c.connection_id s.view_state)) [
    | inl h ↦ rw (update_view, h) v
    | inr (e, h) ↦
        rw (update_view, h) (record { view = λ r. ground (arith, v.view r); control = v.control })
  ]

  tear_down-Closed : (s : Loop) → Closed c s → Closed c (tear_down c s)
  unfolding tear_down
  tear_down-Closed s v = record {
    view = λ r. ground (arith, lookup-remove c.connection_id c.connection_id s.view_state);
    control = λ r. ground (arith, lookup-remove c.connection_id c.connection_id s.control);
  }

-- When the loop of a connection that was running has ended, no control channel and no view state
-- is registered for the connection.
pub inbound_loop-Closed :
    (is_utf8 : Bytes → Bool) (c : Connection) (es : List (Backend × Event)) (s : Loop)
    → s.running ≡ true
    → (inbound_loop is_utf8 c es s).running ≡ false
    → (lookup c.connection_id (inbound_loop is_utf8 c es s).view_state ≡ none)
      × (lookup c.connection_id (inbound_loop is_utf8 c es s).control ≡ none)
inbound_loop-Closed is_utf8 c es s on off =
    let v : Closed c (inbound_loop is_utf8 c es s) =
      inbound_loop_keeps is_utf8 c (Closed c)
        (λ b e t.
          turn_keeps (Closed c) c
            (λ x y p q r u. record {
              view = λ o. ap (lookup c.connection_id) p ∙ u.view (sym r ∙ o);
              control = λ o. ap (lookup c.connection_id) q ∙ u.control (sym r ∙ o);
            })
            (update_view-Closed c) (tear_down-Closed c) is_utf8 b e t)
        es s (record { view = λ o. cc (on, o); control = λ o. cc (on, o) }) in
    (v.view off, v.control off)

-- What a turn must have yielded for the loop to go on.
abbrev pub Passed : Connection → Event → Type 0
Passed c (reader_tick finished) = finished ≡ false
Passed c evicted = ⊥
Passed c (recheck check) = (check ≡ checked true) × (is_some c.token ≡ true)
Passed c (command cmd) = Unit
Passed c (frame f) = Unit
Passed c stream_error = ⊥
Passed c stream_end = ⊥

turn-Passed :
    (is_utf8 : Bytes → Bool) (b : Backend) (c : Connection) (e : Event) (s : Loop)
    → (turn is_utf8 b c e s).running ≡ true
    → Passed c e
unfolding turn tear_down revalidate_token
turn-Passed is_utf8 b c (reader_tick finished) s h = ground arith
turn-Passed is_utf8 b c evicted s h = cc
turn-Passed is_utf8 b c (recheck check) s h = (ground arith, ground arith)
turn-Passed is_utf8 b c (command cmd) s h = tt
turn-Passed is_utf8 b c (frame f) s h = tt
turn-Passed is_utf8 b c stream_error s h = cc
turn-Passed is_utf8 b c stream_end s h = cc

loop_stopped :
    (is_utf8 : Bytes → Bool) (c : Connection) (es : List (Backend × Event)) (s : Loop)
    → s.running ≡ false
    → (inbound_loop is_utf8 c es s).running ≡ false
unfolding inbound_loop
loop_stopped is_utf8 c [] s h = h
loop_stopped is_utf8 c ((b, e) ∷ es) s h = ground arith

-- A loop that is still running has seen no eviction, no end of the stream and no finished reader,
-- and every check of the token found one that is valid.
pub inbound_loop-Passed :
    (is_utf8 : Bytes → Bool) (c : Connection) (es : List (Backend × Event)) (s : Loop)
    → (inbound_loop is_utf8 c es s).running ≡ true
    → All (λ be. Passed c be.1) es
unfolding inbound_loop
inbound_loop-Passed is_utf8 c [] s h = tt
inbound_loop-Passed is_utf8 c ((b, e) ∷ es) s h = elim (Bool-cases s.running) [
  | inl r ↦
      let rest = inbound_loop-Passed is_utf8 c es (turn is_utf8 b c e s) (ground arith) in
      let on : (turn is_utf8 b c e s).running ≡ true =
        elim (Bool-cases (turn is_utf8 b c e s).running) [
          | inl t ↦ t
          | inr f ↦ ground (arith, loop_stopped is_utf8 c es (turn is_utf8 b c e s) f)
        ] in
      (turn-Passed is_utf8 b c e s on, rest)
  | inr r ↦ ground arith
]
