-- ===== src/Mux/Zellij.antt =====
-- muxrd/src/multiplexer/zellij.rs: the actions a toggle is sent as.
use muxr_core.Base.{◌&&◌, List, [], ◌∷◌, if◌then◌else◌, ◌++◌}
use muxr_core.Mux.Layout.{PaneRef}
use muxr_core.Mux.Context.{FullscreenHint}

-- The actions of zellij that this part sends. The coordinates are always those of the whole
-- display without a border.
pub data Action : Type 0 where
  toggle_floating_panes : Action
  focus_pane_by_pane_id : PaneRef → Action
  change_floating_pane_coordinates : PaneRef → Action
  toggle_focus_no_ui_fullscreen : Action

unfoldable pub fullscreen_actions : PaneRef → FullscreenHint → List Action
fullscreen_actions pane hint =
    if hint.is_floating
    then (if hint.floating_visible && hint.is_focused_floating
        then toggle_floating_panes ∷ []
        else ((if hint.target_is_relay_focus then [] else focus_pane_by_pane_id pane ∷ [])
            ++ change_floating_pane_coordinates pane ∷ []))
    else (if hint.tab_fullscreen
        then focus_pane_by_pane_id pane ∷ toggle_focus_no_ui_fullscreen ∷ []
        else focus_pane_by_pane_id pane ∷ toggle_focus_no_ui_fullscreen ∷ [])
