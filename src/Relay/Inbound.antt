-- ===== src/Relay/Inbound.antt =====
-- muxrd/src/relay/inbound.rs: one turn of the inbound loop, as a function of the backend at that
-- turn and of what the `select!` yields, and the loop over a sequence of turns.
pub mod ReadOnly
pub mod Bounds
pub mod Keeps
pub mod Registry
pub mod Failure
use muxr_core.Base.{
  ℕ, suc, ◌^◌, ◌%◌, String, Option, none, some, Bool, not, ◌||◌, ◌&&◌, if◌then◌else◌, if_keeps, ltb,
  leb, List, [], ◌∷◌, length,
}
use muxr_core.Routing.Names.{Bytes}
use muxr_core.Relay.Wire.{
  ToggleReply, RelayControl, switch_tab, focus_pane, switch_space, toggle_fullscreen, query_layout,
  MouseInput, MouseKind, wheel_up, wheel_down, ClientFrame, input, resize, mouse, attach, no_kind,
  TokenCheck, checked, db_error, check_panicked, Event, reader_tick, evicted, recheck, command,
  frame, stream_error, stream_end, Call, go_to_tab, focus, to_space, toggle, send_resize,
  send_input_chars, send_input_bytes, send_mouse, layout_actions, layout_result, Answer, done,
  failed, panicked, Reply, toggled, moved, no_render_thread, Backend, ViewStateEntry, ControlEntry,
  Connection, Loop,
}
use muxr_core.Relay.Control.{
  run_sender_op, call, reply, update_view, tear_down, revalidate_token, gate_control,
  switch_tab_arm, focus_pane_arm, switch_space_arm, toggle_fullscreen_arm, floored_resize, works,
  is_wheel_kind, kind_of, max_input_frame_bytes,
}

-- The query is answered from the blocking pool, or handed to the render thread before the actions
-- are sent.
unfoldable pub handle_query_layout : Backend → ℕ → Loop → Loop
unfolding call reply
handle_query_layout b seq s =
    if b.has_sync_layout
    then call layout_result s
    else (if b.render_alive
        then call layout_actions (record s { in_flight = seq ∷ s.in_flight })
        else reply no_render_thread s)

unfoldable pub query_layout_arm : Backend → Loop → Loop
unfolding handle_query_layout
query_layout_arm b s =
    handle_query_layout b s.next_query_seq
      (record s { next_query_seq = suc s.next_query_seq % 2 ^ 64 })

unfoldable pub command_arm : Backend → Connection → Option RelayControl → Loop → Loop
unfolding switch_tab_arm focus_pane_arm switch_space_arm toggle_fullscreen_arm query_layout_arm
command_arm b c none s = s
command_arm b c (some (switch_tab tab)) s = switch_tab_arm b c tab s
command_arm b c (some (focus_pane pane)) s = focus_pane_arm b c pane s
command_arm b c (some (switch_space w)) s = switch_space_arm b c w s
command_arm b c (some (toggle_fullscreen pane hint r)) s = toggle_fullscreen_arm b c pane hint r s
command_arm b c (some query_layout) s = query_layout_arm b s

-- `String::from_utf8` is the library's.
unfoldable pub forward_input : (Bytes → Bool) → Bytes → Loop → Loop
unfolding call
forward_input is_utf8 bytes s =
    call (if is_utf8 bytes then send_input_chars bytes else send_input_bytes bytes) s

unfoldable pub handle_input_frame : (Bytes → Bool) → Bytes → Bool → Loop → Loop
unfolding forward_input
handle_input_frame is_utf8 bytes read_only s =
    if read_only
    then s
    else (if ltb max_input_frame_bytes (length bytes) then s else forward_input is_utf8 bytes s)

unfoldable pub handle_mouse_frame : MouseInput → Bool → Loop → Loop
unfolding is_wheel_kind kind_of call
handle_mouse_frame m read_only s =
    if read_only && not (is_wheel_kind m.kind)
    then s
    else (if leb s.grid_cols m.col || leb s.grid_rows m.row
        then s
        else call (send_mouse (kind_of m.kind) (m.col % 2 ^ 16) (m.row % 2 ^ 16)) s)

unfoldable pub handle_resize : Backend → ℕ → ℕ → Loop → Loop
unfolding floored_resize works call
handle_resize b rows cols s =
    let (r, c) = floored_resize rows cols in
    let s' = call (send_resize r c) s in
    if works (b.answer (send_resize r c)) then record s' { grid_rows = r; grid_cols = c } else s'

unfoldable pub frame_arm : (Bytes → Bool) → Backend → Connection → ClientFrame → Loop → Loop
unfolding handle_input_frame handle_mouse_frame handle_resize
frame_arm is_utf8 b c (input bytes) s = handle_input_frame is_utf8 bytes c.read_only s
frame_arm is_utf8 b c (resize rows cols) s = handle_resize b rows cols s
frame_arm is_utf8 b c (mouse m) s = handle_mouse_frame m c.read_only s
frame_arm is_utf8 b c attach s = s
frame_arm is_utf8 b c no_kind s = s

unfoldable pub turn : (Bytes → Bool) → Backend → Connection → Event → Loop → Loop
unfolding tear_down revalidate_token gate_control command_arm frame_arm
turn is_utf8 b c (reader_tick finished) s = if finished then tear_down c s else s
turn is_utf8 b c evicted s = tear_down c s
turn is_utf8 b c (recheck check) s = if revalidate_token c.token check then s else tear_down c s
turn is_utf8 b c (command cmd) s = command_arm b c (gate_control cmd c.read_only) s
turn is_utf8 b c (frame f) s = frame_arm is_utf8 b c f s
turn is_utf8 b c stream_error s = tear_down c s
turn is_utf8 b c stream_end s = tear_down c s

-- The loop over what it is given, until it is left.
unfoldable pub inbound_loop : (Bytes → Bool) → Connection → List (Backend × Event) → Loop → Loop
unfolding turn
inbound_loop is_utf8 c [] s = s
inbound_loop is_utf8 c ((b, e) ∷ es) s =
    if s.running then inbound_loop is_utf8 c es (turn is_utf8 b c e s) else s

-- What every turn keeps, the loop keeps.
pub inbound_loop_keeps :
    (is_utf8 : Bytes → Bool) (c : Connection) (P : Loop → Type 0)
    → ((b : Backend) (e : Event) (s : Loop) → P s → P (turn is_utf8 b c e s))
    → (es : List (Backend × Event)) (s : Loop) → P s
    → P (inbound_loop is_utf8 c es s)
unfolding inbound_loop
inbound_loop_keeps is_utf8 c P keep [] s p = p
inbound_loop_keeps is_utf8 c P keep ((b, e) ∷ es) s p =
    if_keeps P s.running (inbound_loop is_utf8 c es (turn is_utf8 b c e s)) s
      (inbound_loop_keeps is_utf8 c P keep es (turn is_utf8 b c e s) (keep b e s p)) p
