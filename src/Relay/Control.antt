-- ===== src/Relay/Control.antt =====
-- muxrd/src/relay/inbound.rs and the geometry of muxrd/src/relay/mod.rs: the gates of the inbound
-- loop, and the arms for the controls that move the relay or toggle a pane. A sender's call
-- that is made in line may fail; one that is made on the blocking pool may also panic, which ends
-- the loop.
use muxr_core.Base.{
  ℕ, ◌^◌, ◌%◌, ◌*◌, min, max, String, string_key, Option, none, some, Bool, true, false, ◌==◌, ◌||◌,
  ◌&&◌, if◌then◌else◌, ◌∷◌, lookup, insert, remove,
}
use muxr_core.Mux.Layout.{PaneRef}
use muxr_core.Relay.Fullscreen.{
  FloatingHint, Refusal, Outcome, ok, err, abandoned, not_sent, AppliedToggle, RelayViewState,
  RelayTabView, view_of, resolve_toggle_target, record_applied_toggle,
}
use muxr_core.Relay.Wire.{
  ToggleReply, RelayControl, switch_tab, focus_pane, switch_space, toggle_fullscreen, query_layout,
  MouseKind, wheel_up, wheel_down, TokenCheck, checked, db_error, check_panicked, Call, go_to_tab,
  focus, to_space, toggle, Answer, done, failed, panicked, Reply, toggled, moved, Backend,
  Connection, Loop,
}

abbrev pub max_terminal_dim : ℕ
max_terminal_dim = 1024

abbrev pub min_terminal_rows : ℕ
min_terminal_rows = 4

abbrev pub min_terminal_cols : ℕ
min_terminal_cols = 20

abbrev pub max_input_frame_bytes : ℕ
max_input_frame_bytes = 1024 * 1024

unfoldable pub clamp_dim : ℕ → ℕ → ℕ → ℕ
clamp_dim v default floor = if v == 0 then default else max (min v max_terminal_dim % 2 ^ 16) floor

unfoldable pub floored_resize : ℕ → ℕ → ℕ × ℕ
unfolding clamp_dim
floored_resize rows cols =
    (clamp_dim rows 24 min_terminal_rows, clamp_dim cols 80 min_terminal_cols)

unfoldable pub read_only_denies : RelayControl → Bool
read_only_denies (switch_tab t) = false
read_only_denies (focus_pane p) = false
read_only_denies (switch_space w) = false
read_only_denies query_layout = false
read_only_denies (toggle_fullscreen p h r) = true

unfoldable pub gate_control : Option RelayControl → Bool → Option RelayControl
unfolding read_only_denies
gate_control none read_only = none
gate_control (some cmd) read_only = if read_only && read_only_denies cmd then none else some cmd

unfoldable pub revalidate_token : Option String → TokenCheck → Bool
revalidate_token none check = false
revalidate_token (some token) (checked valid) = valid
revalidate_token (some token) db_error = false
revalidate_token (some token) check_panicked = false

unfoldable pub is_wheel_kind : ℕ → Bool
is_wheel_kind raw = raw == 0 || raw == 1

-- The generated accessor: a value it does not know is read as the default variant.
unfoldable pub kind_of : ℕ → MouseKind
kind_of raw = if raw == 1 then wheel_down else wheel_up

unfoldable pub call : Call → Loop → Loop
call c s = record s { sent = c ∷ s.sent }

unfoldable pub reply : Reply → Loop → Loop
reply r s = record s { replies = r ∷ s.replies }

-- `if let Some(mut entry) = view_state.get_mut(&connection_id)`.
unfoldable pub update_view : (RelayViewState → RelayViewState) → Connection → Loop → Loop
update_view f c s = elim (lookup c.connection_id s.view_state) [
  | none ↦ s
  | some e ↦ record s {
    view_state = insert c.connection_id (record e { state = f e.state }) s.view_state;
  }
]

unfoldable pub relay_view : Connection → Loop → RelayTabView
relay_view c s = elim (lookup c.connection_id s.view_state) [
  | none ↦ record { focused_pane = none; active_tab = none }
  | some e ↦ view_of e.state
]

-- The loop is left, and both registry entries of the connection are removed.
unfoldable pub tear_down : Connection → Loop → Loop
tear_down c s = record s {
  control = remove c.connection_id s.control;
  view_state = remove c.connection_id s.view_state;
  running = false;
}

-- A call on the blocking pool: `good` when it worked, `bad` when it returned an error, and `lost`
-- when it panicked.
unfoldable pub run_sender_op : Answer → Loop → Loop → Loop → Loop
run_sender_op done good bad lost = good
run_sender_op failed good bad lost = bad
run_sender_op panicked good bad lost = lost

unfoldable pub switch_tab_arm : Backend → Connection → ℕ → Loop → Loop
unfolding run_sender_op call update_view tear_down
switch_tab_arm b c tab s =
    let s' = call (go_to_tab tab) s in
    let entered = update_view (λ v. record v { active_tab = some tab; focused_pane = none }) c s' in
    run_sender_op (b.answer (go_to_tab tab)) entered s' (tear_down c s')

unfoldable pub focus_pane_arm : Backend → Connection → PaneRef → Loop → Loop
unfolding run_sender_op call update_view tear_down
focus_pane_arm b c pane s =
    let s' = call (focus pane) s in
    let entered =
      update_view (λ v. record v { focused_pane = some pane; active_tab = none }) c s' in
    run_sender_op (b.answer (focus pane)) entered s' (tear_down c s')

unfoldable pub switch_space_arm : Backend → Connection → String → Loop → Loop
unfolding run_sender_op call reply update_view tear_down
switch_space_arm b c w s =
    let s' = call (to_space w) s in
    let entered =
      update_view (λ v. record v { active_tab = none; focused_pane = none; current_space = some w })
        c s' in
    run_sender_op (b.answer (to_space w)) (reply (moved true) entered) (reply (moved false) s')
      (tear_down c (reply (moved false) s'))

abbrev pub gave_up_before : Option ToggleReply → Bool
gave_up_before none = false
gave_up_before (some r) = r.closed_before

abbrev pub gave_up_after : Option ToggleReply → Bool
gave_up_after none = false
gave_up_after (some r) = r.closed_after

-- `toggle_fullscreen_once` up to the call of the sender.
unfoldable pub toggle_to_send :
    Backend
    → PaneRef
    → Option FloatingHint
    → RelayTabView
    → Option ToggleReply
    → Outcome AppliedToggle
toggle_to_send b pane hint view r =
    let target = resolve_toggle_target b.live pane hint view in
    if gave_up_before r then err (abandoned pane) else (elim target [
      | err refusal ↦ err refusal
      | ok a ↦ if gave_up_after r then err (abandoned pane) else ok a
    ])

unfoldable pub works : Answer → Bool
works done = true
works failed = false
works panicked = false

unfoldable pub toggle_reply : Option ToggleReply → Option Refusal → Loop → Loop
unfolding reply
toggle_reply none refusal s = s
toggle_reply (some r) refusal s = reply (toggled refusal) s

-- The arm once the outcome up to the call is known.
unfoldable pub finish_toggle :
    Backend → Connection → PaneRef → Option ToggleReply → Outcome AppliedToggle → Loop → Loop
unfolding call update_view toggle_reply works
finish_toggle b c pane r (err refusal) s = toggle_reply r (some refusal) s
finish_toggle b c pane r (ok a) s =
    let s' = call (toggle a.pane a.hint) s in
    let applied = update_view (λ v. record_applied_toggle v pane a) c s' in
    if works (b.answer (toggle a.pane a.hint))
    then toggle_reply r none applied
    else toggle_reply r (some (not_sent pane)) s'

unfoldable pub toggle_fullscreen_arm :
    Backend → Connection → PaneRef → Option FloatingHint → Option ToggleReply → Loop → Loop
unfolding finish_toggle
toggle_fullscreen_arm b c pane hint r s =
    finish_toggle b c pane r (toggle_to_send b pane hint (relay_view c s) r) s
