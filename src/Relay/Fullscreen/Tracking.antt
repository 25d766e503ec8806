-- ===== src/Relay/Fullscreen/Tracking.antt =====
-- muxrd/src/relay/inbound.rs: the tab and the pane that a relay tracks stay in agreement over an
-- applied toggle.
use muxr_core.Base.{
  ◌≡◌, is_some, ◌∙◌, sym, subst, ℕ, Option, none, some, true, false, arith, Bool-cases, inl, inr,
  ◌||◌,
}
use muxr_core.Mux.Layout.{PaneRef, LayoutSnapshot, is_pane}
use muxr_core.Mux.Context.{
  PaneFullscreenContext, from_snapshot, focus_tab_id, from_snapshot-tab_id, from_snapshot_focus,
  from_snapshot_placed,
}
use muxr_core.Relay.Fullscreen.{
  RelayViewState, FloatingHint, AppliedToggle, ok, resolve_live_context, resolve_read,
  require_relay_tab, relay_own_tab, send_pane, hides, exits, live_toggle, resolve_toggle_target,
  resolve_client_hint, hint_is_hide, record_applied_toggle, view_of, toggle_focus_effect,
  focus_after, tab_after, target_is_relay_focus,
}
use muxr_core.Relay.Fullscreen.Gate.{live_of, resolve_live_context_lem}
use muxr_core.Relay.Fullscreen.Sent.{by_reading, by_hint}

-- When both a pane and a tab are tracked, the layout has the pane in the tab.
is_pane_lem : (o : Option PaneRef) (q : PaneRef) → is_pane o q ≡ true → o ≡ some q
is_pane_lem none q h = cc
is_pane_lem (some p) q h = ground arith

unfoldable pub Agree : LayoutSnapshot → RelayViewState → Type 0
Agree snap s =
    (p : PaneRef) (t : ℕ)
    → s.focused_pane ≡ some p
    → s.active_tab ≡ some t
    → focus_tab_id snap (some p) ≡ some t

reading_form :
    (pane : PaneRef) (s : RelayViewState) (ctx : PaneFullscreenContext) (a : AppliedToggle)
    → resolve_live_context pane ctx (view_of s) ≡ ok a
    → a ≡ live_toggle pane ctx (view_of s) a.pane
unfolding resolve_live_context require_relay_tab send_pane live_toggle
reading_form pane s ctx a h = ground arith

toggle_agrees :
    (snap : LayoutSnapshot) (pane q : PaneRef) (s : RelayViewState) (ctx : PaneFullscreenContext)
    → ctx.tab_id ≡ focus_tab_id snap (some pane)
    → is_some ctx.tab_id ≡ true
    → ctx.relay_focus_tab_id ≡ focus_tab_id snap s.focused_pane
    → ((t : ℕ)
        → ctx.tab_id ≡ some t
        → (hides pane ctx || exits ctx) ≡ true
        → relay_own_tab ctx (view_of s) ≡ some t)
    → (ctx.is_floating ≡ true → ctx.floating_visible ≡ true)
    → Agree snap s
    → Agree snap (record_applied_toggle s pane (live_toggle pane ctx (view_of s) q))
unfolding Agree relay_own_tab live_toggle record_applied_toggle toggle_focus_effect focus_after
    tab_after
toggle_agrees snap pane q s ctx et es ef own vis g p t hp ht = ground (arith, g p t, own t)

reading_agrees :
    (snap : LayoutSnapshot) (pane : PaneRef) (s : RelayViewState) (ctx : PaneFullscreenContext)
    (a : AppliedToggle)
    → ctx.tab_id ≡ focus_tab_id snap (some pane)
    → is_some ctx.tab_id ≡ true
    → ctx.relay_focus_tab_id ≡ focus_tab_id snap s.focused_pane
    → Agree snap s
    → resolve_live_context pane ctx (view_of s) ≡ ok a
    → Agree snap (record_applied_toggle s pane a)
reading_agrees snap pane s ctx a et es ef g h =
    let l = resolve_live_context_lem pane ctx (view_of s) a h in
    subst (λ (b : AppliedToggle). Agree snap (record_applied_toggle s pane b))
      (sym (reading_form pane s ctx a h)) (toggle_agrees snap pane a.pane s ctx et es ef l.2 l.1 g)

hint_agrees :
    (snap : LayoutSnapshot) (pane : PaneRef) (f : FloatingHint) (s : RelayViewState)
    (a : AppliedToggle)
    → hint_is_hide f ≡ false
    → Agree snap s
    → resolve_client_hint pane f (view_of s) ≡ ok a
    → Agree snap (record_applied_toggle s pane a)
unfolding Agree hint_is_hide resolve_client_hint target_is_relay_focus record_applied_toggle
    toggle_focus_effect focus_after tab_after
hint_agrees snap pane f s a n g h p t hp ht = ground (arith, g p t, is_pane_lem s.focused_pane pane)

snapshot_agrees :
    (snap : LayoutSnapshot) (pane : PaneRef) (s : RelayViewState) (a : AppliedToggle)
    → Agree snap s
    → resolve_live_context pane (from_snapshot snap pane s.focused_pane) (view_of s) ≡ ok a
    → Agree snap (record_applied_toggle s pane a)
snapshot_agrees snap pane s a g h =
    let ctx = from_snapshot snap pane s.focused_pane in
    let e = (resolve_live_context_lem pane ctx (view_of s) a h).0 in
    reading_agrees snap pane s ctx a (from_snapshot-tab_id snap pane s.focused_pane)
      (from_snapshot_placed snap pane s.focused_pane e)
      (from_snapshot_focus snap pane s.focused_pane e) g h

-- A toggle that is resolved against a layout and applied keeps the tracked pane and the tracked tab
-- in agreement with the layout.
pub record_applied_toggle-Agree :
    (snap : LayoutSnapshot) (pane : PaneRef) (hint : Option FloatingHint) (s : RelayViewState)
    (a : AppliedToggle)
    → Agree snap s
    → resolve_toggle_target (live_of snap) pane hint (view_of s) ≡ ok a
    → Agree snap (record_applied_toggle s pane a)
unfolding resolve_toggle_target resolve_read
record_applied_toggle-Agree snap pane none s a g h = snapshot_agrees snap pane s a g h
record_applied_toggle-Agree snap pane (some f) s a g h = elim (Bool-cases (hint_is_hide f)) [
  | inl e ↦ snapshot_agrees snap pane s a g (by_reading (live_of snap) pane f (view_of s) e ∙ h)
  | inr e ↦ hint_agrees snap pane f s a e g (by_hint (live_of snap) pane f (view_of s) e ∙ h)
]
