-- ===== src/Relay/Inbound/Bounds.antt =====
-- muxrd/src/relay/inbound.rs: the sizes of the grid, of the input and of the coordinates that reach
-- the backend.
use muxr_core.Base.{
  ℕ, ◌≤◌, ◌<◌, String, Option, none, some, Bool, arith, List, All, length, if_keeps,
}
use muxr_core.Mux.Layout.{PaneRef}
use muxr_core.Relay.Fullscreen.{AppliedToggle, Outcome, err, ok, FloatingHint}
use muxr_core.Routing.Names.{Bytes}
use muxr_core.Relay.Wire.{
  RelayControl, switch_tab, focus_pane, switch_space, toggle_fullscreen, query_layout, ClientFrame,
  input, resize, mouse, attach, no_kind, MouseInput, ToggleReply, Event, reader_tick, evicted,
  recheck, command, frame, stream_error, stream_end, Call, go_to_tab, focus, to_space, toggle,
  send_resize, send_input_chars, send_input_bytes, send_mouse, layout_actions, layout_result,
  Backend, Connection, Loop,
}
use muxr_core.Relay.Control.{
  call, reply, update_view, tear_down, run_sender_op, gate_control, revalidate_token,
  switch_tab_arm, focus_pane_arm, switch_space_arm, toggle_fullscreen_arm, finish_toggle,
  toggle_reply, clamp_dim, floored_resize, toggle_to_send, relay_view,
}
use muxr_core.Relay.Inbound.{
  handle_query_layout, query_layout_arm, command_arm, forward_input, handle_input_frame,
  handle_mouse_frame, handle_resize, frame_arm, turn, inbound_loop, inbound_loop_keeps,
}

-- A size of the grid that the loop keeps or sends.
abbrev pub Sized : ℕ → ℕ → Type 0
Sized rows cols = (4 ≤ rows) × (rows ≤ 1024) × (20 ≤ cols) × (cols ≤ 1024)

abbrev pub Bounded : Call → Type 0
Bounded (go_to_tab t) = Unit
Bounded (focus p) = Unit
Bounded (to_space w) = Unit
Bounded (toggle p h) = Unit
Bounded (send_resize r c) = Sized r c
Bounded (send_input_chars b) = length b ≤ 1048576
Bounded (send_input_bytes b) = length b ≤ 1048576
Bounded (send_mouse k c r) = (c < 1024) × (r < 1024)
Bounded layout_actions = Unit
Bounded layout_result = Unit

pub record InBounds (s : Loop) : Type 0 where
  pub grid : Sized s.grid_rows s.grid_cols
  pub calls : All Bounded s.sent

-- A size that a client asks for is brought into the bounds, for every 32-bit request.
pub floored_resize-Sized : (rows cols : ℕ) → let (r, c) = floored_resize rows cols in Sized r c
unfolding floored_resize clamp_dim
floored_resize-Sized rows cols = ground arith

module _ (b : Backend) (c : Connection) (s : Loop) (v : InBounds s) where
  switch_tab_arm-InBounds : (t : ℕ) → InBounds (switch_tab_arm b c t s)
  unfolding switch_tab_arm run_sender_op call tear_down update_view
  switch_tab_arm-InBounds t = ground (arith, v.grid, v.calls)

  focus_pane_arm-InBounds : (p : PaneRef) → InBounds (focus_pane_arm b c p s)
  unfolding focus_pane_arm run_sender_op call tear_down update_view
  focus_pane_arm-InBounds p = ground (arith, v.grid, v.calls)

  switch_space_arm-InBounds : (w : String) → InBounds (switch_space_arm b c w s)
  unfolding switch_space_arm run_sender_op call tear_down update_view reply
  switch_space_arm-InBounds w = ground (arith, v.grid, v.calls)

  finish_toggle-InBounds :
      (p : PaneRef) (r : Option ToggleReply) (o : Outcome AppliedToggle)
      → InBounds (finish_toggle b c p r o s)
  unfolding finish_toggle toggle_reply call update_view reply
  finish_toggle-InBounds p r (err e) = ground (arith, v.grid, v.calls)
  finish_toggle-InBounds p r (ok a) = ground (arith, v.grid, v.calls)

  toggle_fullscreen_arm-InBounds :
      (p : PaneRef) (h : Option FloatingHint) (r : Option ToggleReply)
      → InBounds (toggle_fullscreen_arm b c p h r s)
  unfolding toggle_fullscreen_arm
  toggle_fullscreen_arm-InBounds p h r =
      finish_toggle-InBounds p r (toggle_to_send b p h (relay_view c s) r)

  query_layout_arm-InBounds : InBounds (query_layout_arm b s)
  unfolding query_layout_arm handle_query_layout call reply
  query_layout_arm-InBounds = ground (arith, v.grid, v.calls)

  handle_mouse_frame-InBounds : (m : MouseInput) (r : Bool) → InBounds (handle_mouse_frame m r s)
  unfolding handle_mouse_frame call
  handle_mouse_frame-InBounds m r = ground (arith, v.grid, v.calls)

  handle_resize-InBounds : (rows cols : ℕ) → InBounds (handle_resize b rows cols s)
  unfolding handle_resize call
  handle_resize-InBounds rows cols = ground (arith, v.grid, v.calls, floored_resize-Sized rows cols)

  handle_input_frame-InBounds :
      (is_utf8 : Bytes → Bool) (bytes : Bytes) (r : Bool)
      → InBounds (handle_input_frame is_utf8 bytes r s)
  unfolding handle_input_frame forward_input call
  handle_input_frame-InBounds is_utf8 bytes r = ground (arith, v.grid, v.calls)

  command_arm-InBounds : (cmd : Option RelayControl) → InBounds (command_arm b c cmd s)
  unfolding command_arm
  command_arm-InBounds none = v
  command_arm-InBounds (some (switch_tab t)) = switch_tab_arm-InBounds t
  command_arm-InBounds (some (focus_pane p)) = focus_pane_arm-InBounds p
  command_arm-InBounds (some (switch_space w)) = switch_space_arm-InBounds w
  command_arm-InBounds (some (toggle_fullscreen p h r)) = toggle_fullscreen_arm-InBounds p h r
  command_arm-InBounds (some query_layout) = query_layout_arm-InBounds

  frame_arm-InBounds :
      (is_utf8 : Bytes → Bool) (f : ClientFrame) → InBounds (frame_arm is_utf8 b c f s)
  unfolding frame_arm
  frame_arm-InBounds is_utf8 (input bytes) = handle_input_frame-InBounds is_utf8 bytes c.read_only
  frame_arm-InBounds is_utf8 (resize rows cols) = handle_resize-InBounds rows cols
  frame_arm-InBounds is_utf8 (mouse m) = handle_mouse_frame-InBounds m c.read_only
  frame_arm-InBounds is_utf8 attach = v
  frame_arm-InBounds is_utf8 no_kind = v

  tear_down-InBounds : InBounds (tear_down c s)
  unfolding tear_down
  tear_down-InBounds = ground (arith, v.grid, v.calls)

  turn-InBounds : (is_utf8 : Bytes → Bool) (e : Event) → InBounds (turn is_utf8 b c e s)
  unfolding turn
  turn-InBounds is_utf8 (reader_tick finished) =
      if_keeps InBounds finished (tear_down c s) s tear_down-InBounds v
  turn-InBounds is_utf8 evicted = tear_down-InBounds
  turn-InBounds is_utf8 (recheck check) =
      if_keeps InBounds (revalidate_token c.token check) s (tear_down c s) v tear_down-InBounds
  turn-InBounds is_utf8 (command cmd) = command_arm-InBounds (gate_control cmd c.read_only)
  turn-InBounds is_utf8 (frame f) = frame_arm-InBounds is_utf8 f
  turn-InBounds is_utf8 stream_error = tear_down-InBounds
  turn-InBounds is_utf8 stream_end = tear_down-InBounds

-- Over any sequence of turns the grid stays between 4 by 20 and 1024 by 1024 when it was there at
-- the start, and what is sent is bounded when it was before: every size by the same bounds, no
-- input longer than a mebibyte, and every mouse position below 1024 on both axes.
pub inbound_loop-InBounds :
    (is_utf8 : Bytes → Bool) (c : Connection) (es : List (Backend × Event)) (s : Loop)
    → InBounds s
    → InBounds (inbound_loop is_utf8 c es s)
inbound_loop-InBounds is_utf8 c =
    inbound_loop_keeps is_utf8 c InBounds (λ b e s v. turn-InBounds b c s v is_utf8 e)
