-- ===== src/Relay/Fullscreen/Gate.antt =====
-- muxrd/src/relay/inbound.rs: what a toggle resolved from a live reading may act on.
use muxr_core.Base.{◌≡◌, ℕ, Option, some, true, false, arith, ◌||◌}
use muxr_core.Mux.Layout.{PaneRef, LayoutSnapshot}
use muxr_core.Mux.Context.{PaneFullscreenContext, from_snapshot}
use muxr_core.Relay.Fullscreen.{
  RelayTabView, AppliedToggle, ok, LiveRead, read, resolve_live_context, require_relay_tab,
  relay_own_tab, send_pane, hides, exits,
}

-- A backend that reads the layout at once.
abbrev pub live_of : LayoutSnapshot → PaneRef → Option PaneRef → LiveRead
live_of snap p f = read (from_snapshot snap p f)

-- A toggle that a reading is resolved to acts on a pane that exists and is not on a hidden layer.
-- When it is an exit or a hide on a backend that reports tabs, the target's tab is the relay's
-- own; when it is an exit there, it is sent for the pane the relay has in focus. When it is no exit
-- it is sent for the target.
pub resolve_live_context_lem :
    (pane : PaneRef) (ctx : PaneFullscreenContext) (view : RelayTabView) (a : AppliedToggle)
    → resolve_live_context pane ctx view ≡ ok a
    → (ctx.exists ≡ true)
      × ((ctx.is_floating ≡ true) → ctx.floating_visible ≡ true)
      × ((t : ℕ)
          → (ctx.tab_id ≡ some t)
          → (hides pane ctx || exits ctx) ≡ true
          → relay_own_tab ctx view ≡ some t)
      × ((t : ℕ) → (ctx.tab_id ≡ some t) → exits ctx ≡ true → view.focused_pane ≡ some a.pane)
      × (exits ctx ≡ false → a.pane ≡ pane)
unfolding resolve_live_context require_relay_tab send_pane
resolve_live_context_lem pane ctx view a h =
    (ground arith, ground arith, ground arith, ground arith, ground arith)
