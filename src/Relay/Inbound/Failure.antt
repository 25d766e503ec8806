-- ===== src/Relay/Inbound/Failure.antt =====
-- muxrd/src/relay/inbound.rs: a control that the backend does not carry out.
use muxr_core.Base.{
  ◌≡◌, ℕ, suc, String, Option, none, some, Bool, true, false, arith, List, [], ◌∷◌, if◌then◌else◌,
}
use muxr_core.Mux.Layout.{PaneRef}
use muxr_core.Relay.Fullscreen.{AppliedToggle, Outcome, err, ok}
use muxr_core.Relay.Wire.{
  RelayControl, switch_tab, focus_pane, switch_space, toggle_fullscreen, query_layout, ToggleReply,
  Reply, toggled, moved, no_render_thread, Call, Backend, Connection, Loop, go_to_tab, focus,
  to_space, toggle,
}
use muxr_core.Relay.Control.{
  call, reply, tear_down, run_sender_op, switch_tab_arm, focus_pane_arm, switch_space_arm,
  toggle_fullscreen_arm, toggle_reply, finish_toggle, works, toggle_to_send, relay_view,
}
use muxr_core.Relay.Inbound.{handle_query_layout, query_layout_arm, command_arm}

abbrev pub is_success : Reply → Bool
is_success (toggled none) = true
is_success (toggled (some r)) = false
is_success (moved b) = b
is_success no_render_thread = false

-- The number of replies that tell of a success.
abbrev pub successes : List Reply → ℕ
successes [] = 0
successes (r ∷ rs) = if is_success r then suc (successes rs) else successes rs

-- No view state changes while the loop goes on, and no success is told.
abbrev pub Refuses : Loop → Loop → Type 0
Refuses s t =
    (t.running ≡ true → t.view_state ≡ s.view_state) × (successes t.replies ≡ successes s.replies)

module _ (b : Backend) (c : Connection) (s : Loop)
    (broken : (k : Call) → works (b.answer k) ≡ false) where
  switch_tab_arm-Refuses : (t : ℕ) → Refuses s (switch_tab_arm b c t s)
  unfolding switch_tab_arm run_sender_op call tear_down works
  switch_tab_arm-Refuses t = ground (arith, broken (go_to_tab t))

  focus_pane_arm-Refuses : (p : PaneRef) → Refuses s (focus_pane_arm b c p s)
  unfolding focus_pane_arm run_sender_op call tear_down works
  focus_pane_arm-Refuses p = ground (arith, broken (focus p))

  switch_space_arm-Refuses : (w : String) → Refuses s (switch_space_arm b c w s)
  unfolding switch_space_arm run_sender_op call tear_down reply works
  switch_space_arm-Refuses w = ground (arith, broken (to_space w))

  finish_toggle-Refuses :
      (p : PaneRef) (r : Option ToggleReply) (o : Outcome AppliedToggle)
      → Refuses s (finish_toggle b c p r o s)
  unfolding finish_toggle toggle_reply reply call works
  finish_toggle-Refuses p r (err e) = ground arith
  finish_toggle-Refuses p r (ok a) = ground (arith, broken (toggle a.pane a.hint))

-- When the backend carries out no call, a control leaves every view state as it is unless it ends
-- the loop, and no RPC is told of a success.
pub command_arm-Refuses :
    (b : Backend) (c : Connection) (s : Loop) (cmd : RelayControl)
    → ((k : Call) → works (b.answer k) ≡ false)
    → Refuses s (command_arm b c (some cmd) s)
unfolding command_arm toggle_fullscreen_arm query_layout_arm handle_query_layout call reply
command_arm-Refuses b c s (switch_tab t) h = switch_tab_arm-Refuses b c s h t
command_arm-Refuses b c s (focus_pane p) h = focus_pane_arm-Refuses b c s h p
command_arm-Refuses b c s (switch_space w) h = switch_space_arm-Refuses b c s h w
command_arm-Refuses b c s (toggle_fullscreen p hint r) h =
    finish_toggle-Refuses b c s h p r (toggle_to_send b p hint (relay_view c s) r)
command_arm-Refuses b c s query_layout h = (ground arith, ground arith)
