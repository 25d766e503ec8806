-- ===== src/Tests/Shows.antt =====
-- muxrd/src/grpc/layout.rs: a layout of two tabs, for a relay that knows its pane.
use muxr_core.Base.{ℕ, ◌≡◌, refl, none, some, Bool, true, false, List, [], ◌∷◌}
use muxr_core.Mux.Layout.{PaneRef, PaneSnapshot, TabSnapshot, LayoutSnapshot, names}
use muxr_core.Relay.Fullscreen.{RelayViewState}
use muxr_core.Views.{build_tab_msgs}
use muxr_core.Views.Shown.{shows, shows_only, somewhere, build_tab_msgs-shows}

abbrev pane : ℕ → Bool → Bool → PaneSnapshot
pane id focused plugin = record {
  id = id;
  title = "sh";
  is_focused = focused;
  is_floating = false;
  exited = false;
  command = "sh";
  cwd = "/";
  x = 0;
  y = 0;
  rows = 24;
  cols = 80;
  is_plugin = plugin;
  is_fullscreen = false;
  agent = none;
}

abbrev tab : ℕ → Bool → List PaneSnapshot → TabSnapshot
tab id active panes = record {
  tab_id = id;
  position = id;
  name = "tab";
  active = active;
  has_bell = false;
  panes_to_hide = 0;
  fullscreen_active = false;
  floating_panes_visible = false;
  panes = panes;
}

abbrev layout : LayoutSnapshot
layout = record {
  tabs =
      tab 0 true (pane 1 true false ∷ pane 3 false true ∷ [])
      ∷ tab 1 false (pane 2 true false ∷ pane 3 false false ∷ [])
      ∷ [];
}

abbrev wanted : PaneRef
wanted = record { id = 3; is_plugin = false }

abbrev view : RelayViewState
view = record { active_tab = none; focused_pane = some wanted; current_space = none }

build_tab_msgs-shows_example :
    (shows wanted (build_tab_msgs layout (some view)) ≡ true)
    × (shows_only wanted (build_tab_msgs layout (some view)) ≡ true)
unfolding somewhere names
build_tab_msgs-shows_example = build_tab_msgs-shows layout view wanted refl refl refl
