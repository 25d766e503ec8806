-- ===== src/Tests/Streams.antt =====
-- The witnesses of muxrd/src/relay/inbound.rs.
use muxr_core.Base.{
  ◌≡◌, ◌≢◌, refl, String, none, some, Bool, true, false, List, [], ◌∷◌, All, lookup, insert,
  string_key, string_discrete, ℕ_discrete, arith,
}
use muxr_core.Mux.Layout.{PaneRef, PaneSnapshot, LayoutSnapshot, pane_discrete, same_bool, names}
use muxr_core.Mux.Context.{
  PaneFullscreenContext, find, from_tabs, from_snapshot, focus_tab_id, tab_of, focused_floating_of,
}
use muxr_core.Mux.Zellij.{fullscreen_actions}
use muxr_core.Relay.Fullscreen.{
  RelayViewState, AppliedToggle, ok, read, resolve_live_context, relay_own_tab, send_pane,
  require_relay_tab, live_toggle, target_is_relay_focus, resolve_toggle_target, resolve_read,
  record_applied_toggle, view_of,
}
use muxr_core.Relay.Fullscreen.Acts.{Acts, resolve_toggle_target-Acts}
use muxr_core.Relay.Fullscreen.Sent.{resolve_toggle_target_layer, toggles_layer, Placed}
use muxr_core.Relay.Fullscreen.Gate.{live_of}
use muxr_core.Relay.Fullscreen.Tracking.{Agree, record_applied_toggle-Agree}
use muxr_core.Relay.Wire.{
  toggle_fullscreen, switch_tab, Event, recheck, command, frame, input, resize, evicted, checked,
  done, failed, Backend, Connection, Loop, ViewStateEntry,
}
use muxr_core.Relay.Inbound.{inbound_loop, command_arm}
use muxr_core.Relay.Control.{works}
use muxr_core.Relay.Inbound.ReadOnly.{Viewing, inbound_loop-Viewing}
use muxr_core.Relay.Inbound.Bounds.{InBounds, inbound_loop-InBounds}
use muxr_core.Relay.Inbound.Registry.{
  Passed, inbound_loop-Unchanged, inbound_loop-Closed, inbound_loop-Passed,
}
use muxr_core.Relay.Inbound.Failure.{Refuses, command_arm-Refuses}
use text.Mathlib.TextEquality.{eq_iff}

abbrev shell : PaneRef
shell = record { id = 7; is_plugin = false }

abbrev editor : PaneRef
editor = record { id = 9; is_plugin = false }

abbrev pane_of : PaneRef → Bool → PaneSnapshot
pane_of p floats = record {
  id = p.id;
  title = "";
  is_focused = floats;
  is_floating = floats;
  exited = false;
  command = "";
  cwd = "";
  x = 0;
  y = 0;
  rows = 24;
  cols = 80;
  is_plugin = p.is_plugin;
  is_fullscreen = false;
  agent = none;
}

-- One tab in fullscreen, with the shell tiled and the editor floating in focus.
abbrev layout : LayoutSnapshot
layout = record {
  tabs =
      (record {
        tab_id = 3;
        position = 0;
        name = "";
        active = true;
        has_bell = false;
        panes_to_hide = 0;
        fullscreen_active = true;
        floating_panes_visible = true;
        panes = pane_of shell false ∷ pane_of editor true ∷ [];
      })
      ∷ [];
}

abbrev watching : RelayViewState
watching = record { active_tab = some 3; focused_pane = some shell; current_space = none }

unfoldable context : PaneRef → PaneFullscreenContext
unfolding from_snapshot from_tabs find names same_bool focused_floating_of focus_tab_id tab_of
context p = from_snapshot layout p (some shell)

-- Asking for the editor hides the floating layer, and asking for the shell leaves fullscreen.
abbrev hidden : AppliedToggle
hidden = live_toggle editor (context editor) (view_of watching) editor

abbrev left : AppliedToggle
left = live_toggle shell (context shell) (view_of watching) shell

resolve_shell : resolve_toggle_target (live_of layout) shell none (view_of watching) ≡ ok left
unfolding resolve_toggle_target resolve_read context resolve_live_context require_relay_tab
    relay_own_tab send_pane live_toggle target_is_relay_focus pane_discrete ℕ_discrete from_snapshot
    from_tabs find names same_bool focused_floating_of focus_tab_id tab_of
resolve_shell = refl

resolve_toggle_target-Acts_example : Acts layout shell (view_of watching) left
resolve_toggle_target-Acts_example =
    resolve_toggle_target-Acts layout shell (view_of watching) left resolve_shell

resolve_editor : resolve_toggle_target (live_of layout) editor none (view_of watching) ≡ ok hidden
unfolding resolve_toggle_target resolve_read context resolve_live_context require_relay_tab
    relay_own_tab send_pane live_toggle target_is_relay_focus pane_discrete ℕ_discrete from_snapshot
    from_tabs find names same_bool focused_floating_of focus_tab_id tab_of
resolve_editor = refl

editor_layer : toggles_layer (fullscreen_actions hidden.pane hidden.hint) ≡ true
unfolding fullscreen_actions context live_toggle pane_discrete ℕ_discrete
editor_layer = refl

resolve_toggle_target_layer_example :
    (ctx : PaneFullscreenContext) × (live_of layout editor (some shell) ≡ read ctx)
    × Placed editor ctx (view_of watching)
resolve_toggle_target_layer_example =
    resolve_toggle_target_layer (live_of layout) editor none (view_of watching) hidden
      resolve_editor editor_layer

watching-Agree : Agree layout watching
unfolding Agree focus_tab_id tab_of find names same_bool
watching-Agree p t hp ht = ground arith

record_applied_toggle-Agree_example : Agree layout (record_applied_toggle watching editor hidden)
record_applied_toggle-Agree_example =
    record_applied_toggle-Agree layout editor none watching hidden watching-Agree resolve_editor

abbrev viewer : Connection
viewer = record { connection_id = "c1"; read_only = true; token = some "t" }

abbrev backend : Backend
backend = record {
  answer = λ k. done;
  live = live_of layout;
  has_sync_layout = false;
  render_alive = true;
}

abbrev broken : Backend
broken = record backend { answer = λ k. failed }

abbrev entry : ViewStateEntry
entry = record { session = []; state = watching }

abbrev fresh : Loop
fresh = record {
  view_state = ("c1", entry) ∷ ("c2", entry) ∷ [];
  control = ("c1", record { session = []; sender = 0; read_only = true }) ∷ [];
  grid_rows = 24;
  grid_cols = 80;
  next_query_seq = 0;
  sent = [];
  replies = [];
  in_flight = [];
  running = true;
}

-- The viewer types, asks for fullscreen, changes its tab and its size, and is evicted.
abbrev turns : List (Backend × Event)
turns =
    (backend, frame (input (104 ∷ 105 ∷ [])))
    ∷ (backend, command (some (toggle_fullscreen shell none none)))
    ∷ (backend, command (some (switch_tab 4)))
    ∷ (backend, frame (resize 1 5000))
    ∷ (backend, evicted)
    ∷ []

abbrev loop_of : List (Backend × Event) → Loop
loop_of es = inbound_loop (λ bytes. true) viewer es fresh

inbound_loop-Viewing_example : Viewing (loop_of turns)
inbound_loop-Viewing_example = inbound_loop-Viewing (λ bytes. true) viewer refl turns fresh tt

fresh-InBounds : InBounds fresh
fresh-InBounds = record { grid = (omega arith, omega arith, omega arith, omega arith); calls = tt }

inbound_loop-InBounds_example : InBounds (loop_of turns)
inbound_loop-InBounds_example =
    inbound_loop-InBounds (λ bytes. true) viewer turns fresh fresh-InBounds

c2-apart : ◌≢◌ {A = String} "c2" "c1"
c2-apart e = cc ((eq_iff "c2" "c1").1 e)

inbound_loop-Unchanged_example :
    (lookup "c2" (loop_of turns).view_state ≡ lookup "c2" fresh.view_state)
    × (lookup "c2" (loop_of turns).control ≡ lookup "c2" fresh.control)
inbound_loop-Unchanged_example =
    inbound_loop-Unchanged (λ bytes. true) viewer turns fresh "c2" c2-apart

turns_end : (loop_of turns).running ≡ false
unfolding inbound_loop lookup insert string_discrete
turns_end = refl

inbound_loop-Closed_example :
    (lookup "c1" (loop_of turns).view_state ≡ none) × (lookup "c1" (loop_of turns).control ≡ none)
inbound_loop-Closed_example = inbound_loop-Closed (λ bytes. true) viewer turns fresh refl turns_end

abbrev valid : List (Backend × Event)
valid = (backend, recheck (checked true)) ∷ (backend, frame (resize 30 90)) ∷ []

valid_runs : (loop_of valid).running ≡ true
unfolding inbound_loop
valid_runs = refl

inbound_loop-Passed_example : All (λ be. Passed viewer be.1) valid
inbound_loop-Passed_example = inbound_loop-Passed (λ bytes. true) viewer valid fresh valid_runs

works_failed : works failed ≡ false
unfolding works
works_failed = refl

command_arm-Refuses_example : Refuses fresh (command_arm broken viewer (some (switch_tab 4)) fresh)
command_arm-Refuses_example =
    command_arm-Refuses broken viewer fresh (switch_tab 4) (λ k. works_failed)
