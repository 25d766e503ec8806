-- ===== src/Views.antt =====
-- muxrd/src/grpc/layout.rs: the layout that a client is told, with the tab and the pane that its own
-- relay is on in place of those that the backend reports.
pub mod Shown
use muxr_core.Base.{
  ℕ, String, Option, none, some, Bool, true, false, not, ◌&&◌, ◌||◌, ◌==◌, List, [], ◌∷◌, ◌%◌, ◌^◌,
  if◌then◌else◌, is_empty_str, ite, string_discrete,
}
use muxr_core.Mux.Layout.{
  PaneRef, PaneSnapshot, TabSnapshot, LayoutSnapshot, AgentMark, names, same_bool,
}
use muxr_core.Relay.Fullscreen.{RelayViewState}

unfoldable pub pane_is_client_visible : Bool → Bool
pane_is_client_visible is_plugin = not is_plugin

unfoldable pub is_space_scoped : String → Bool
is_space_scoped space = not (is_empty_str space)

unfoldable pub rejects_space_scope : String → Bool → Bool
unfolding is_space_scoped
rejects_space_scope space backend_supports_spaces =
    is_space_scoped space && not backend_supports_spaces

-- A pane that clients see is the one named.
unfoldable pub has_pane : PaneRef → List PaneSnapshot → Bool
unfolding pane_is_client_visible names
has_pane wanted [] = false
has_pane wanted (p ∷ ps) =
    (pane_is_client_visible p.is_plugin && names wanted p) || has_pane wanted ps

-- The first tab with the pane.
unfoldable pub tab_with : PaneRef → List TabSnapshot → Option ℕ
unfolding has_pane
tab_with wanted [] = none
tab_with wanted (t ∷ ts) =
    let rest = tab_with wanted ts in if has_pane wanted t.panes then some t.tab_id else rest

unfoldable pub tab_of_pane : Option PaneRef → List TabSnapshot → Option ℕ
unfolding tab_with
tab_of_pane none ts = none
tab_of_pane (some p) ts = tab_with p ts

unfoldable pub tracked_tab : Option ℕ → Option PaneRef → List TabSnapshot → Option ℕ
unfolding tab_of_pane
tracked_tab (some tab) pane ts = some tab
tracked_tab none pane ts = tab_of_pane pane ts

unfoldable pub resolve_effective_active_tab : Option RelayViewState → LayoutSnapshot → Option ℕ
unfolding tracked_tab
resolve_effective_active_tab none s = none
resolve_effective_active_tab (some vs) s = tracked_tab vs.active_tab vs.focused_pane s.tabs

pub record PaneMsg : Type 0 where
  pub id : ℕ
  pub title : String
  pub is_focused : Bool
  pub is_floating : Bool
  pub exited : Bool
  pub command : String
  pub cwd : String
  pub x : ℕ
  pub y : ℕ
  pub rows : ℕ
  pub cols : ℕ
  pub is_plugin : Bool
  pub is_fullscreen : Bool
  pub agent : Option AgentMark

pub record TabMsg : Type 0 where
  pub position : ℕ
  pub name : String
  pub active : Bool
  pub has_bell : Bool
  pub panes_to_hide : ℕ
  pub tab_id : ℕ
  pub panes : List PaneMsg
  pub fullscreen_active : Bool
  pub floating_panes_visible : Bool

-- `Option::map` with the test that the tab is this one, and then `unwrap_or`.
unfoldable pub is_tab_or : Option ℕ → ℕ → Bool → Bool
is_tab_or none tab b = b
is_tab_or (some at) tab b = tab == at

unfoldable pub focused_pane_of : Option RelayViewState → Option PaneRef
focused_pane_of none = none
focused_pane_of (some vs) = vs.focused_pane

-- The tracked pane decides, where there is one.
unfoldable pub is_pane_or : Option PaneRef → PaneSnapshot → Bool
unfolding same_bool
is_pane_or none p = p.is_focused
is_pane_or (some fp) p = same_bool fp.is_plugin p.is_plugin && fp.id == p.id

unfoldable pub pane_msg : Bool → Option PaneRef → PaneSnapshot → PaneMsg
unfolding is_pane_or
pane_msg in_active_tab focused p = record {
  id = p.id;
  title = p.title;
  is_focused = if in_active_tab then is_pane_or focused p else p.is_focused;
  is_floating = p.is_floating;
  exited = p.exited;
  command = p.command;
  cwd = p.cwd;
  x = p.x;
  y = p.y;
  rows = p.rows;
  cols = p.cols;
  is_plugin = p.is_plugin;
  is_fullscreen = p.is_fullscreen;
  agent = p.agent;
}

unfoldable pub pane_msgs : Bool → Option PaneRef → List PaneSnapshot → List PaneMsg
unfolding pane_is_client_visible pane_msg
pane_msgs in_active_tab focused [] = []
pane_msgs in_active_tab focused (p ∷ ps) =
    let rest = pane_msgs in_active_tab focused ps in
    if pane_is_client_visible p.is_plugin then pane_msg in_active_tab focused p ∷ rest else rest

unfoldable pub tab_msg : Option ℕ → Option PaneRef → TabSnapshot → TabMsg
unfolding is_tab_or pane_msgs
tab_msg effective focused t = record {
  position = t.position;
  name = t.name;
  active = is_tab_or effective t.tab_id t.active;
  has_bell = t.has_bell;
  panes_to_hide = t.panes_to_hide;
  tab_id = t.tab_id % 2 ^ 32;
  panes = pane_msgs (is_tab_or effective t.tab_id false) focused t.panes;
  fullscreen_active = t.fullscreen_active;
  floating_panes_visible = t.floating_panes_visible;
}

unfoldable pub tab_msgs : Option ℕ → Option PaneRef → List TabSnapshot → List TabMsg
unfolding tab_msg
tab_msgs effective focused [] = []
tab_msgs effective focused (t ∷ ts) = tab_msg effective focused t ∷ tab_msgs effective focused ts

unfoldable pub build_tab_msgs : LayoutSnapshot → Option RelayViewState → List TabMsg
unfolding resolve_effective_active_tab focused_pane_of tab_msgs
build_tab_msgs s relay_vs =
    tab_msgs (resolve_effective_active_tab relay_vs s) (focused_pane_of relay_vs) s.tabs

-- A relay's view counts only for the connection that asks.
unfoldable pub should_apply_view_state_override : Bool → String → String → Bool
unfolding string_discrete
should_apply_view_state_override via_relay request relay =
    via_relay && not (is_empty_str request) && ite (string_discrete relay request) true false
