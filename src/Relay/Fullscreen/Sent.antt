-- ===== src/Relay/Fullscreen/Sent.antt =====
-- muxrd/src/relay/inbound.rs and muxrd/src/multiplexer/zellij.rs: the actions that a resolved
-- toggle is sent as.
use muxr_core.Base.{
  ◌≡◌, inl, inr, refl, ◌∙◌, subst, ℕ, Option, none, some, Bool, true, false, arith, Bool-cases,
  List,
}
use muxr_core.Mux.Layout.{PaneRef}
use muxr_core.Mux.Context.{PaneFullscreenContext, any}
use muxr_core.Mux.Zellij.{
  Action, toggle_floating_panes, focus_pane_by_pane_id, change_floating_pane_coordinates,
  toggle_focus_no_ui_fullscreen, fullscreen_actions,
}
use muxr_core.Relay.Fullscreen.{
  RelayTabView, FloatingHint, AppliedToggle, ok, LiveRead, read, LiveRead-cases,
  resolve_live_context, resolve_read, require_relay_tab, relay_own_tab, send_pane, hides,
  live_toggle, resolve_toggle_target, resolve_client_hint, hint_is_hide,
}

abbrev pub is_float_toggle : Action → Bool
is_float_toggle toggle_floating_panes = true
is_float_toggle (focus_pane_by_pane_id p) = false
is_float_toggle (change_floating_pane_coordinates p) = false
is_float_toggle toggle_focus_no_ui_fullscreen = false

-- The actions toggle the floating layer.
abbrev pub toggles_layer : List Action → Bool
toggles_layer = any is_float_toggle

pub Placed : PaneRef → PaneFullscreenContext → RelayTabView → Type 0
Placed pane ctx view =
    (hides pane ctx ≡ true)
    × (ctx.floating_visible ≡ true)
    × ((t : ℕ) → ctx.tab_id ≡ some t → relay_own_tab ctx view ≡ some t)

read_layer :
    (pane : PaneRef) (ctx : PaneFullscreenContext) (view : RelayTabView) (a : AppliedToggle)
    → resolve_live_context pane ctx view ≡ ok a
    → toggles_layer (fullscreen_actions a.pane a.hint) ≡ true
    → Placed pane ctx view
unfolding resolve_live_context require_relay_tab send_pane live_toggle fullscreen_actions Placed
read_layer pane ctx view a h s = (ground arith, ground arith, ground arith)

from_read :
    (live : PaneRef → Option PaneRef → LiveRead) (pane : PaneRef) (view : RelayTabView)
    (a : AppliedToggle)
    → resolve_read pane (live pane view.focused_pane) view ≡ ok a
    → toggles_layer (fullscreen_actions a.pane a.hint) ≡ true
    → (ctx : PaneFullscreenContext) × (live pane view.focused_pane ≡ read ctx)
      × Placed pane ctx view
unfolding resolve_read
from_read live pane view a h s = elim (LiveRead-cases (live pane view.focused_pane)) [
  | inl (ctx, e) ↦ (
    ctx,
    e,
    read_layer pane ctx view a (subst (λ (r : LiveRead). resolve_read pane r view ≡ ok a) e h) s,
  )
  | inr e ↦ ground arith
]

hint_layer :
    (pane : PaneRef) (h : FloatingHint) (view : RelayTabView) (a : AppliedToggle)
    → hint_is_hide h ≡ false
    → resolve_client_hint pane h view ≡ ok a
    → toggles_layer (fullscreen_actions a.pane a.hint) ≡ false
unfolding resolve_client_hint hint_is_hide fullscreen_actions
hint_layer pane h view a n r = ground arith

module _ (live : PaneRef → Option PaneRef → LiveRead) (pane : PaneRef) (f : FloatingHint)
    (view : RelayTabView) where
  pub by_reading :
      hint_is_hide f ≡ true
      → resolve_read pane (live pane view.focused_pane) view
        ≡ resolve_toggle_target live pane (some f) view
  unfolding resolve_toggle_target
  by_reading e = rw e refl

  pub by_hint :
      hint_is_hide f ≡ false
      → resolve_client_hint pane f view ≡ resolve_toggle_target live pane (some f) view
  unfolding resolve_toggle_target
  by_hint e = rw e refl

-- The layer of floating panes is toggled only after a live reading, for the floating pane that is
-- in focus on a visible layer, and, where the backend reports tabs, only on the relay's own tab.
pub resolve_toggle_target_layer :
    (live : PaneRef → Option PaneRef → LiveRead) (pane : PaneRef) (hint : Option FloatingHint)
    (view : RelayTabView) (a : AppliedToggle)
    → resolve_toggle_target live pane hint view ≡ ok a
    → toggles_layer (fullscreen_actions a.pane a.hint) ≡ true
    → (ctx : PaneFullscreenContext) × (live pane view.focused_pane ≡ read ctx)
      × Placed pane ctx view
unfolding resolve_toggle_target
resolve_toggle_target_layer live pane none view a h s = from_read live pane view a h s
resolve_toggle_target_layer live pane (some f) view a h s = elim (Bool-cases (hint_is_hide f)) [
  | inl e ↦ from_read live pane view a (by_reading live pane f view e ∙ h) s
  | inr e ↦ ground (arith, hint_layer pane f view a e (by_hint live pane f view e ∙ h))
]
