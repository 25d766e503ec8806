-- ===== src/Relay/Inbound/ReadOnly.antt =====
-- muxrd/src/relay/inbound.rs: the boundary of a read-only token.
use muxr_core.Base.{◌≡◌, ℕ, String, Option, none, some, Bool, true, false, arith, List, All}
use muxr_core.Mux.Layout.{PaneRef}
use muxr_core.Relay.Fullscreen.{RelayViewState}
use muxr_core.Routing.Names.{Bytes}
use muxr_core.Relay.Wire.{
  RelayControl, switch_tab, focus_pane, switch_space, toggle_fullscreen, query_layout, ClientFrame,
  input, resize, mouse, attach, no_kind, MouseInput, Event, reader_tick, evicted, recheck, command,
  frame, stream_error, stream_end, Call, go_to_tab, focus, to_space, toggle, send_resize,
  send_input_chars, send_input_bytes, send_mouse, layout_actions, layout_result, Backend,
  Connection, Loop,
}
use muxr_core.Relay.Control.{
  call, reply, update_view, tear_down, run_sender_op, gate_control, read_only_denies,
  switch_tab_arm, focus_pane_arm, switch_space_arm,
}
use muxr_core.Relay.Inbound.{
  handle_query_layout, query_layout_arm, command_arm, handle_input_frame, handle_mouse_frame,
  handle_resize, frame_arm, turn, inbound_loop, inbound_loop_keeps,
}

-- A call that types into a pane or changes the layout that every client shares.
abbrev pub is_shared : Call → Bool
is_shared (go_to_tab t) = false
is_shared (focus p) = false
is_shared (to_space w) = false
is_shared (toggle p h) = true
is_shared (send_resize r c) = false
is_shared (send_input_chars b) = true
is_shared (send_input_bytes b) = true
is_shared (send_mouse k c r) = false
is_shared layout_actions = false
is_shared layout_result = false

-- None of the calls made is one of those.
abbrev pub Viewing : Loop → Type 0
Viewing s = All (λ c. is_shared c ≡ false) s.sent

update_view-sent :
    (f : RelayViewState → RelayViewState) (c : Connection) (s : Loop)
    → (update_view f c s).sent ≡ s.sent
unfolding update_view
update_view-sent f c s = ground arith

module _ (b : Backend) (c : Connection) (s : Loop) (v : Viewing s) where
  switch_tab_arm-Viewing : (t : ℕ) → Viewing (switch_tab_arm b c t s)
  unfolding switch_tab_arm run_sender_op call tear_down update_view
  switch_tab_arm-Viewing t = ground arith

  focus_pane_arm-Viewing : (p : PaneRef) → Viewing (focus_pane_arm b c p s)
  unfolding focus_pane_arm run_sender_op call tear_down update_view
  focus_pane_arm-Viewing p = ground arith

  switch_space_arm-Viewing : (w : String) → Viewing (switch_space_arm b c w s)
  unfolding switch_space_arm run_sender_op call tear_down update_view reply
  switch_space_arm-Viewing w = ground arith

  query_layout_arm-Viewing : Viewing (query_layout_arm b s)
  unfolding query_layout_arm handle_query_layout call reply
  query_layout_arm-Viewing = ground arith

  handle_mouse_frame-Viewing : (m : MouseInput) (r : Bool) → Viewing (handle_mouse_frame m r s)
  unfolding handle_mouse_frame call
  handle_mouse_frame-Viewing m r = ground arith

  handle_resize-Viewing : (rows cols : ℕ) → Viewing (handle_resize b rows cols s)
  unfolding handle_resize call
  handle_resize-Viewing rows cols = ground arith

module _ (is_utf8 : Bytes → Bool) (b : Backend) (c : Connection) (ro : c.read_only ≡ true) where
  command-Viewing :
      (s : Loop)
      → Viewing s
      → (cmd : Option RelayControl) → Viewing (command_arm b c (gate_control cmd c.read_only) s)
  unfolding command_arm gate_control read_only_denies
  command-Viewing s v none = v
  command-Viewing s v (some (switch_tab t)) = rw ro (switch_tab_arm-Viewing b c s v t)
  command-Viewing s v (some (focus_pane p)) = rw ro (focus_pane_arm-Viewing b c s v p)
  command-Viewing s v (some (switch_space w)) = rw ro (switch_space_arm-Viewing b c s v w)
  command-Viewing s v (some (toggle_fullscreen p h r)) = rw ro v
  command-Viewing s v (some query_layout) = rw ro (query_layout_arm-Viewing b c s v)

  frame-Viewing : (s : Loop) → Viewing s → (f : ClientFrame) → Viewing (frame_arm is_utf8 b c f s)
  unfolding frame_arm handle_input_frame
  frame-Viewing s v (input bytes) = rw ro v
  frame-Viewing s v (resize rows cols) = handle_resize-Viewing b c s v rows cols
  frame-Viewing s v (mouse m) = handle_mouse_frame-Viewing b c s v m c.read_only
  frame-Viewing s v attach = v
  frame-Viewing s v no_kind = v

  turn-Viewing : (s : Loop) → Viewing s → (e : Event) → Viewing (turn is_utf8 b c e s)
  unfolding turn tear_down
  turn-Viewing s v (reader_tick finished) = ground arith
  turn-Viewing s v evicted = v
  turn-Viewing s v (recheck check) = ground arith
  turn-Viewing s v (command cmd) = command-Viewing s v cmd
  turn-Viewing s v (frame f) = frame-Viewing s v f
  turn-Viewing s v stream_error = v
  turn-Viewing s v stream_end = v

-- Over any sequence of turns, and whatever the backend answers, the loop of a read-only connection
-- never types into a pane and never toggles fullscreen, when it had not before.
pub inbound_loop-Viewing :
    (is_utf8 : Bytes → Bool) (c : Connection)
    → c.read_only ≡ true
    → (es : List (Backend × Event)) (s : Loop) → Viewing s
    → Viewing (inbound_loop is_utf8 c es s)
inbound_loop-Viewing is_utf8 c ro =
    inbound_loop_keeps is_utf8 c Viewing (λ b e s v. turn-Viewing is_utf8 b c ro s v e)
