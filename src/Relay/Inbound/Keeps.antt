-- ===== src/Relay/Inbound/Keeps.antt =====
-- muxrd/src/relay/inbound.rs: a property that does not look beyond the registries and the end of the
-- loop is kept by every turn when it is kept by an update of the view and by the teardown.
use muxr_core.Base.{
  ◌≡◌, refl, ℕ, suc, ◌%◌, ◌^◌, String, string_key, Option, none, some, Bool, true, false, ◌∷◌,
  if_keeps,
}
use muxr_core.Mux.Layout.{PaneRef}
use muxr_core.Relay.Fullscreen.{
  RelayViewState, Refusal, not_sent, AppliedToggle, Outcome, err, ok, FloatingHint,
}
use muxr_core.Routing.Names.{Bytes}
use muxr_core.Relay.Wire.{
  RelayControl, switch_tab, focus_pane, switch_space, toggle_fullscreen, query_layout, ClientFrame,
  input, resize, mouse, attach, no_kind, ToggleReply, Reply, toggled, moved, no_render_thread,
  layout_result, layout_actions, Event, reader_tick, evicted, recheck, command, frame, stream_error,
  stream_end, Call, go_to_tab, focus, to_space, toggle, Answer, done, failed, panicked, Backend,
  Connection, Loop,
}
use muxr_core.Relay.Control.{
  call, reply, update_view, tear_down, run_sender_op, gate_control, switch_tab_arm, focus_pane_arm,
  switch_space_arm, toggle_fullscreen_arm, toggle_reply, works, finish_toggle, toggle_to_send,
  relay_view,
}
use muxr_core.Relay.Inbound.{
  handle_query_layout, query_layout_arm, command_arm, forward_input, handle_input_frame,
  handle_mouse_frame, handle_resize, frame_arm, turn,
}

module _ (P : Loop → Type 0) (c : Connection)
    (same : (s t : Loop)
      → t.view_state ≡ s.view_state
      → t.control ≡ s.control
      → t.running ≡ s.running
      → P s
      → P t)
    (update : (f : RelayViewState → RelayViewState) (s : Loop) → P s → P (update_view f c s))
    (down : (s : Loop) → P s → P (tear_down c s)) where
  call_keeps : (k : Call) (s : Loop) → P s → P (call k s)
  unfolding call
  call_keeps k s p = same s (record s { sent = k ∷ s.sent }) refl refl refl p

  reply_keeps : (r : Reply) (s : Loop) → P s → P (reply r s)
  unfolding reply
  reply_keeps r s p = same s (record s { replies = r ∷ s.replies }) refl refl refl p

  run_sender_op_keeps : (a : Answer) (x y z : Loop) → P x → P y → P z → P (run_sender_op a x y z)
  unfolding run_sender_op
  run_sender_op_keeps done x y z p q r = p
  run_sender_op_keeps failed x y z p q r = q
  run_sender_op_keeps panicked x y z p q r = r

  switch_tab_arm_keeps : (b : Backend) (t : ℕ) (s : Loop) → P s → P (switch_tab_arm b c t s)
  unfolding switch_tab_arm
  switch_tab_arm_keeps b t s p =
      let q = call_keeps (go_to_tab t) s p in
      run_sender_op_keeps (b.answer (go_to_tab t)) _ _ _ (update _ _ q) q (down _ q)

  focus_pane_arm_keeps : (b : Backend) (x : PaneRef) (s : Loop) → P s → P (focus_pane_arm b c x s)
  unfolding focus_pane_arm
  focus_pane_arm_keeps b x s p =
      let q = call_keeps (focus x) s p in
      run_sender_op_keeps (b.answer (focus x)) _ _ _ (update _ _ q) q (down _ q)

  switch_space_arm_keeps :
      (b : Backend) (w : String) (s : Loop) → P s → P (switch_space_arm b c w s)
  unfolding switch_space_arm
  switch_space_arm_keeps b w s p =
      let q = call_keeps (to_space w) s p in
      run_sender_op_keeps (b.answer (to_space w)) _ _ _ (reply_keeps (moved true) _ (update _ _ q))
        (reply_keeps (moved false) _ q) (down _ (reply_keeps (moved false) _ q))

  toggle_reply_keeps :
      (r : Option ToggleReply) (o : Option Refusal) (s : Loop) → P s → P (toggle_reply r o s)
  unfolding toggle_reply
  toggle_reply_keeps none o s p = p
  toggle_reply_keeps (some r) o s p = reply_keeps (toggled o) s p

  finish_toggle_keeps :
      (b : Backend) (x : PaneRef) (r : Option ToggleReply) (o : Outcome AppliedToggle) (s : Loop)
      → P s
      → P (finish_toggle b c x r o s)
  unfolding finish_toggle
  finish_toggle_keeps b x r (err e) s p = toggle_reply_keeps r (some e) s p
  finish_toggle_keeps b x r (ok a) s p =
      let q = call_keeps (toggle a.pane a.hint) s p in
      if_keeps P (works (b.answer (toggle a.pane a.hint))) _ _
        (toggle_reply_keeps r none _ (update _ _ q)) (toggle_reply_keeps r (some (not_sent x)) _ q)

  toggle_fullscreen_arm_keeps :
      (b : Backend) (x : PaneRef) (h : Option FloatingHint) (r : Option ToggleReply) (s : Loop)
      → P s
      → P (toggle_fullscreen_arm b c x h r s)
  unfolding toggle_fullscreen_arm
  toggle_fullscreen_arm_keeps b x h r s p =
      finish_toggle_keeps b x r (toggle_to_send b x h (relay_view c s) r) s p

  query_layout_arm_keeps : (b : Backend) (s : Loop) → P s → P (query_layout_arm b s)
  unfolding query_layout_arm handle_query_layout
  query_layout_arm_keeps b s p =
      let q =
        same s (record s { next_query_seq = suc s.next_query_seq % 2 ^ 64 }) refl refl refl p in
      if_keeps P b.has_sync_layout _ _ (call_keeps layout_result _ q) (
        if_keeps P b.render_alive _ _ (call_keeps layout_actions _ (same _ _ refl refl refl q))
          (reply_keeps no_render_thread _ q))

  command_arm_keeps :
      (b : Backend) (cmd : Option RelayControl) (s : Loop) → P s → P (command_arm b c cmd s)
  unfolding command_arm
  command_arm_keeps b none s p = p
  command_arm_keeps b (some (switch_tab t)) s p = switch_tab_arm_keeps b t s p
  command_arm_keeps b (some (focus_pane x)) s p = focus_pane_arm_keeps b x s p
  command_arm_keeps b (some (switch_space w)) s p = switch_space_arm_keeps b w s p
  command_arm_keeps b (some (toggle_fullscreen x h r)) s p = toggle_fullscreen_arm_keeps b x h r s p
  command_arm_keeps b (some query_layout) s p = query_layout_arm_keeps b s p

  frame_arm_keeps :
      (is_utf8 : Bytes → Bool) (b : Backend) (f : ClientFrame) (s : Loop)
      → P s
      → P (frame_arm is_utf8 b c f s)
  unfolding frame_arm handle_input_frame forward_input handle_resize handle_mouse_frame
  frame_arm_keeps is_utf8 b (input bytes) s p =
      if_keeps P c.read_only _ _ p (if_keeps P _ _ _ p (call_keeps _ s p))
  frame_arm_keeps is_utf8 b (resize rows cols) s p =
      let q = call_keeps _ s p in if_keeps P _ _ _ (same _ _ refl refl refl q) q
  frame_arm_keeps is_utf8 b (mouse m) s p =
      if_keeps P _ _ _ p (if_keeps P _ _ _ p (call_keeps _ s p))
  frame_arm_keeps is_utf8 b attach s p = p
  frame_arm_keeps is_utf8 b no_kind s p = p

  pub turn_keeps :
      (is_utf8 : Bytes → Bool) (b : Backend) (e : Event) (s : Loop) → P s → P (turn is_utf8 b c e s)
  unfolding turn
  turn_keeps is_utf8 b (reader_tick finished) s p = if_keeps P finished _ _ (down s p) p
  turn_keeps is_utf8 b evicted s p = down s p
  turn_keeps is_utf8 b (recheck check) s p = if_keeps P _ _ _ p (down s p)
  turn_keeps is_utf8 b (command cmd) s p = command_arm_keeps b (gate_control cmd c.read_only) s p
  turn_keeps is_utf8 b (frame f) s p = frame_arm_keeps is_utf8 b f s p
  turn_keeps is_utf8 b stream_error s p = down s p
  turn_keeps is_utf8 b stream_end s p = down s p
