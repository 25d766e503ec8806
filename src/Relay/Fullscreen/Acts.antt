-- ===== src/Relay/Fullscreen/Acts.antt =====
-- muxrd/src/relay/inbound.rs: what a toggle that is resolved against a layout is sent for.
use muxr_core.Base.{
  ◌≡◌, refl, sym, subst, ap, ◌∙◌, ℕ, Option, none, some, Bool, true, false, List, [], ◌∷◌, arith,
  Option-cases, inl, inr, Bool-cases,
}
use mathlib.Core.List.{Mem, mem-cons_self, mem-cons_of_mem}
use muxr_core.Mux.Layout.{PaneRef, PaneSnapshot, TabSnapshot, LayoutSnapshot, names}
use muxr_core.Mux.Context.{
  PaneFullscreenContext, from_snapshot, from_tabs, focus_tab_id, from_snapshot_focus, find,
}
use muxr_core.Mux.Zellij.{focus_pane_by_pane_id, toggle_focus_no_ui_fullscreen, fullscreen_actions}
use muxr_core.Relay.Fullscreen.{
  RelayTabView, AppliedToggle, ok, resolve_live_context, resolve_read, resolve_toggle_target,
  require_relay_tab, relay_own_tab, send_pane, hides, exits, live_toggle,
}
use muxr_core.Relay.Fullscreen.Gate.{live_of, resolve_live_context_lem}
use muxr_core.Relay.Fullscreen.Sent.{toggles_layer}

-- A context that was read from a tab of the layout and a pane in it.
record Found (ts : List TabSnapshot) (pane : PaneRef) (ctx : PaneFullscreenContext) : Type 0 where
  tab : TabSnapshot
  target : PaneSnapshot
  tab_in : Mem tab ts
  target_in : Mem target tab.panes
  named : names pane target ≡ true
  floating : ctx.is_floating ≡ target.is_floating
  visible : ctx.floating_visible ≡ tab.floating_panes_visible
  fullscreen : ctx.tab_fullscreen ≡ tab.fullscreen_active
  placed : ctx.tab_id ≡ some tab.tab_id

find-Mem {ℓ} :
    {A : Type ℓ} (p : A → Bool) (xs : List A) (x : A) → find p xs ≡ some x → Mem x xs × (p x ≡ true)
unfolding find
find-Mem p [] x h = cc
find-Mem p (y ∷ ys) x h = elim (Bool-cases (p y)) [
  | inl e ↦
      let same : y ≡ x = ground (arith, e, h) in
      (subst (λ z. Mem z (y ∷ ys)) same mem-cons_self, ap p (sym same) ∙ e)
  | inr e ↦ let m = find-Mem p ys x (ground (arith, e, h)) in (mem-cons_of_mem y m.0, m.1)
]

from_tabs-Found :
    (ts : List TabSnapshot) (pane : PaneRef) (f : Option ℕ)
    → (from_tabs ts pane f).exists ≡ true
    → Found ts pane (from_tabs ts pane f)
unfolding from_tabs
from_tabs-Found [] pane f h = cc
from_tabs-Found (t ∷ ts) pane f h = elim (Option-cases (find (names pane) t.panes)) [
  | inl e ↦
      let v = from_tabs-Found ts pane f (ground (arith, e, h)) in
      rw (e, from_tabs)
        (record {
          tab = v.tab;
          target = v.target;
          tab_in = mem-cons_of_mem t v.tab_in;
          target_in = v.target_in;
          named = v.named;
          floating = v.floating;
          visible = v.visible;
          fullscreen = v.fullscreen;
          placed = v.placed;
        })
  | inr (p, e) ↦
      let m = find-Mem (names pane) t.panes p e in
      rw (e, from_tabs)
        (record {
          tab = t;
          target = p;
          tab_in = mem-cons_self;
          target_in = m.0;
          named = m.1;
          floating = refl;
          visible = refl;
          fullscreen = refl;
          placed = refl;
        })
]

from_snapshot-Found :
    (snap : LayoutSnapshot) (pane : PaneRef) (focus : Option PaneRef)
    → (from_snapshot snap pane focus).exists ≡ true
    → Found snap.tabs pane (from_snapshot snap pane focus)
unfolding from_snapshot
from_snapshot-Found snap pane focus h = from_tabs-Found snap.tabs pane (focus_tab_id snap focus) h

-- The tab that the relay shows: that of its focus, or the one that it tracks.
unfoldable pub own_tab : LayoutSnapshot → RelayTabView → Option ℕ
unfolding focus_tab_id
own_tab snap view = elim view.focused_pane [
  | none ↦ view.active_tab
  | some p ↦ focus_tab_id snap (some p)
]

-- What a toggle of a pane acts on, in the layout.
pub record Acts (snap : LayoutSnapshot) (pane : PaneRef) (view : RelayTabView) (a : AppliedToggle)
    : Type 0 where
  pub tab : TabSnapshot
  pub target : PaneSnapshot
  pub tab_in : Mem tab snap.tabs
  pub target_in : Mem target tab.panes
  pub named : names pane target ≡ true
  pub shown : target.is_floating ≡ true → tab.floating_panes_visible ≡ true
  pub exited :
      target.is_floating ≡ false
      → tab.fullscreen_active ≡ true
      → (view.focused_pane ≡ some a.pane) × (focus_tab_id snap (some a.pane) ≡ some tab.tab_id)
  pub entered : tab.fullscreen_active ≡ false → a.pane ≡ pane
  pub floated : target.is_floating ≡ true → a.pane ≡ pane
  pub tiled :
      target.is_floating ≡ false
      → fullscreen_actions a.pane a.hint
        ≡ focus_pane_by_pane_id a.pane ∷ toggle_focus_no_ui_fullscreen ∷ []
  pub hidden :
      toggles_layer (fullscreen_actions a.pane a.hint) ≡ true
      → (target.is_floating ≡ true) × (own_tab snap view ≡ some tab.tab_id)

own_tab-relay_own_tab :
    (snap : LayoutSnapshot) (ctx : PaneFullscreenContext) (view : RelayTabView)
    → ctx.relay_focus_tab_id ≡ focus_tab_id snap view.focused_pane
    → relay_own_tab ctx view ≡ own_tab snap view
unfolding own_tab relay_own_tab
own_tab-relay_own_tab snap ctx view e = elim (Option-cases view.focused_pane) [
  | inl f ↦ rw (f) refl
  | inr (p, f) ↦ ground (arith, f, e, ap (focus_tab_id snap) f)
]

own_tab_focus :
    (snap : LayoutSnapshot) (view : RelayTabView) (p : PaneRef)
    → view.focused_pane ≡ some p
    → own_tab snap view ≡ focus_tab_id snap (some p)
unfolding own_tab
own_tab_focus snap view p e = rw (e) refl

module _ (pane : PaneRef) (ctx : PaneFullscreenContext) (view : RelayTabView) (a : AppliedToggle)
    (h : resolve_live_context pane ctx view ≡ ok a) where
  hint_floating : a.hint.is_floating ≡ ctx.is_floating
  unfolding resolve_live_context require_relay_tab send_pane live_toggle
  hint_floating = ground arith

  layer_hides : toggles_layer (fullscreen_actions a.pane a.hint) ≡ true → hides pane ctx ≡ true
  unfolding resolve_live_context require_relay_tab send_pane live_toggle fullscreen_actions
  layer_hides s = ground arith

  tiled_actions :
      ctx.is_floating ≡ false
      → fullscreen_actions a.pane a.hint
        ≡ focus_pane_by_pane_id a.pane ∷ toggle_focus_no_ui_fullscreen ∷ []
  unfolding fullscreen_actions
  tiled_actions f = ground (arith, hint_floating, f)

-- When a toggle is resolved by reading a layout, the pane it names stands in a tab of the layout,
-- and a floating one is on a layer that is shown. When that tab is in fullscreen and the pane is
-- tiled, the toggle leaves the fullscreen by the relay's own focus, which stands in that same tab;
-- else it is sent for the pane named. For a tiled pane it is a focus and a toggle of the
-- fullscreen. The layer of floating panes is toggled only for a floating pane, and only in the tab
-- that the relay shows.
pub resolve_toggle_target-Acts :
    (snap : LayoutSnapshot) (pane : PaneRef) (view : RelayTabView) (a : AppliedToggle)
    → resolve_toggle_target (live_of snap) pane none view ≡ ok a
    → Acts snap pane view a
unfolding resolve_toggle_target resolve_read
resolve_toggle_target-Acts snap pane view a h =
    let ctx = from_snapshot snap pane view.focused_pane in
    let l = resolve_live_context_lem pane ctx view a h in
    let v = from_snapshot-Found snap pane view.focused_pane l.0 in
    let own =
      own_tab-relay_own_tab snap ctx view (from_snapshot_focus snap pane view.focused_pane l.0) in
    record {
      tab = v.tab;
      target = v.target;
      tab_in = v.tab_in;
      target_in = v.target_in;
      named = v.named;
      shown = λ e. sym v.visible ∙ l.1 (v.floating ∙ e);
      exited = λ e f.
          let x : exits ctx ≡ true = ground (arith, v.floating, v.fullscreen, e, f) in
          let y = l.3 v.tab.tab_id v.placed x in
          (
            y,
            sym (own_tab_focus snap view a.pane y)
                ∙ sym own
                ∙ l.2 v.tab.tab_id v.placed (ground (arith, x)),
          );
      entered = λ e. l.4 (ground (arith, v.fullscreen, e));
      floated = λ e. l.4 (ground (arith, v.floating, e));
      tiled = λ e. tiled_actions pane ctx view a h (v.floating ∙ e);
      hidden = λ s.
          let x = layer_hides pane ctx view a h s in
          (ground (arith, v.floating, x), sym own ∙ l.2 v.tab.tab_id v.placed (ground (arith, x)));
    }
