-- ===== src/Relay/Fullscreen.antt =====
-- muxrd/src/relay/inbound.rs: which toggle a request for fullscreen comes to, or why it is refused.
-- Refusals are values here, with the pane that the source's message names.
pub mod Gate
pub mod Sent
pub mod Acts
pub mod Tracking
use muxr_core.Base.{
  ℕ, String, Option, none, some, Bool, true, false, ◌==◌, ◌≡◌, ◌⊎◌, inl, inr, refl, ◌&&◌, ◌||◌, not,
  if◌then◌else◌,
}
use muxr_core.Mux.Layout.{PaneRef, is_pane}
use muxr_core.Mux.Context.{FullscreenHint, PaneFullscreenContext}

pub record RelayViewState : Type 0 where
  pub active_tab : Option ℕ
  pub focused_pane : Option PaneRef
  pub current_space : Option String

pub record RelayTabView : Type 0 where
  pub focused_pane : Option PaneRef
  pub active_tab : Option ℕ

abbrev pub view_of : RelayViewState → RelayTabView
view_of s = record { focused_pane = s.focused_pane; active_tab = s.active_tab }

pub record FloatingHint : Type 0 where
  pub target_is_floating : Bool
  pub floating_visible : Bool
  pub target_is_focused_floating : Bool

-- The messages of `hidden_floating_refusal`, `other_tab_refusal`, `RELAY_TAB_UNKNOWN`,
-- `RELAY_FOCUS_UNKNOWN`, `abandoned_message`, and those written in place.
pub data Refusal : Type 0 where
  pane_not_found : PaneRef → Refusal
  hidden_floating : PaneRef → Refusal
  other_tab : PaneRef → Refusal
  relay_tab_unknown : Refusal
  relay_focus_unknown : Refusal
  unreadable : PaneRef → Refusal
  timed_out : PaneRef → Refusal
  abandoned : PaneRef → Refusal
  not_sent : PaneRef → Refusal

pub data Outcome (A : Type 0) : Type 0 where
  ok : A → Outcome A
  err : Refusal → Outcome A

pub data TabAfter : Type 0 where
  known : ℕ → TabAfter
  unknown : TabAfter
  unchanged : TabAfter

pub record AppliedToggle : Type 0 where
  pub hint : FullscreenHint
  pub tab_after : TabAfter
  pub pane : PaneRef

unfoldable pub relay_own_tab : PaneFullscreenContext → RelayTabView → Option ℕ
relay_own_tab ctx view = elim view.focused_pane [
  | none ↦ view.active_tab
  | some p ↦ ctx.relay_focus_tab_id
]

-- `none` is the source's `Ok(())`.
unfoldable pub require_relay_tab : PaneRef → PaneFullscreenContext → RelayTabView → Option Refusal
unfolding relay_own_tab
require_relay_tab pane ctx view = elim ctx.tab_id [
  | none ↦ none
  | some target ↦ elim (relay_own_tab ctx view) [
    | none ↦ some relay_tab_unknown
    | some tab ↦ if tab == target then none else some (other_tab pane)
  ]
]

unfoldable pub target_is_relay_focus : PaneRef → Bool → Bool → RelayTabView → Bool
target_is_relay_focus pane is_floating floating_visible view =
    is_pane view.focused_pane pane && (is_floating || not floating_visible)

abbrev pub hides : PaneRef → PaneFullscreenContext → Bool
hides pane ctx = ctx.is_floating && is_pane ctx.focused_floating pane

abbrev pub exits : PaneFullscreenContext → Bool
exits ctx = not ctx.is_floating && ctx.tab_fullscreen

-- The pane the sequence is sent for.
unfoldable pub send_pane : PaneRef → PaneFullscreenContext → RelayTabView → Outcome PaneRef
send_pane pane ctx view =
    if exits ctx
    then (elim view.focused_pane [
      | some anchor ↦ ok anchor
      | none ↦ elim ctx.tab_id [ none ↦ ok pane | some t ↦ err relay_focus_unknown ]
    ])
    else ok pane

unfoldable pub live_toggle :
    PaneRef → PaneFullscreenContext → RelayTabView → PaneRef → AppliedToggle
unfolding target_is_relay_focus
live_toggle pane ctx view sent = record {
  hint = record {
    is_floating = ctx.is_floating;
    floating_visible = ctx.floating_visible;
    is_focused_floating = hides pane ctx;
    tab_fullscreen = ctx.tab_fullscreen;
    target_is_relay_focus = target_is_relay_focus pane ctx.is_floating ctx.floating_visible view;
  };
  tab_after = elim ctx.tab_id [ none ↦ unchanged | some t ↦ known t ];
  pane = sent;
}

unfoldable pub resolve_live_context :
    PaneRef → PaneFullscreenContext → RelayTabView → Outcome AppliedToggle
unfolding require_relay_tab send_pane live_toggle
resolve_live_context pane ctx view =
    if not ctx.exists
    then err (pane_not_found pane)
    else (if ctx.is_floating && not ctx.floating_visible
        then err (hidden_floating pane)
        else (elim (if hides pane ctx || exits ctx then require_relay_tab pane ctx view else none) [
          | some refusal ↦ err refusal
          | none ↦ elim (send_pane pane ctx view) [
            | err refusal ↦ err refusal
            | ok sent ↦ ok (live_toggle pane ctx view sent)
          ]
        ]))

unfoldable pub hint_is_hide : FloatingHint → Bool
hint_is_hide h = h.target_is_floating && h.floating_visible && h.target_is_focused_floating

unfoldable pub resolve_client_hint : PaneRef → FloatingHint → RelayTabView → Outcome AppliedToggle
unfolding target_is_relay_focus
resolve_client_hint pane h view =
    let skip_focus = target_is_relay_focus pane h.target_is_floating h.floating_visible view in
    if h.target_is_floating && not h.floating_visible
    then err (hidden_floating pane)
    else ok (record {
      hint = record {
        is_floating = h.target_is_floating;
        floating_visible = h.floating_visible;
        is_focused_floating = h.target_is_focused_floating;
        tab_fullscreen = false;
        target_is_relay_focus = skip_focus;
      };
      tab_after = if skip_focus then unchanged else unknown;
      pane = pane;
    })

-- How the query on the blocking pool ends.
pub data LiveRead : Type 0 where
  read : PaneFullscreenContext → LiveRead
  failed : LiveRead
  panicked : LiveRead
  elapsed : LiveRead

pub LiveRead-cases :
    (r : LiveRead)
    → ((ctx : PaneFullscreenContext) × (r ≡ read ctx))
      ⊎ ((r ≡ failed) ⊎ ((r ≡ panicked) ⊎ (r ≡ elapsed)))
LiveRead-cases (read ctx) = inl (ctx, refl)
LiveRead-cases failed = inr (inl refl)
LiveRead-cases panicked = inr (inr (inl refl))
LiveRead-cases elapsed = inr (inr (inr refl))

unfoldable pub resolve_read : PaneRef → LiveRead → RelayTabView → Outcome AppliedToggle
unfolding resolve_live_context
resolve_read pane (read ctx) view = resolve_live_context pane ctx view
resolve_read pane failed view = err (unreadable pane)
resolve_read pane panicked view = err (unreadable pane)
resolve_read pane elapsed view = err (timed_out pane)

-- `live` is the backend's answer for a pane and the relay's focus.
unfoldable pub resolve_toggle_target :
    (PaneRef → Option PaneRef → LiveRead)
    → PaneRef
    → Option FloatingHint
    → RelayTabView
    → Outcome AppliedToggle
unfolding resolve_read resolve_client_hint hint_is_hide
resolve_toggle_target live pane none view = resolve_read pane (live pane view.focused_pane) view
resolve_toggle_target live pane (some h) view =
    if hint_is_hide h
    then resolve_read pane (live pane view.focused_pane) view
    else resolve_client_hint pane h view

pub data ToggleFocusEffect : Type 0 where
  cleared : ToggleFocusEffect
  kept : ToggleFocusEffect
  focused : ToggleFocusEffect

unfoldable pub toggle_focus_effect : FullscreenHint → ToggleFocusEffect
toggle_focus_effect h =
    if h.is_floating
    then (if h.floating_visible && h.is_focused_floating then cleared else focused)
    else (if h.tab_fullscreen then kept else focused)

unfoldable pub focus_after : ToggleFocusEffect → PaneRef → Option PaneRef → Option PaneRef
focus_after cleared pane p = none
focus_after kept pane p = p
focus_after focused pane p = some pane

unfoldable pub tab_after : TabAfter → Option ℕ → Option ℕ
tab_after (known t) old = some t
tab_after unknown old = none
tab_after unchanged old = old

unfoldable pub record_applied_toggle : RelayViewState → PaneRef → AppliedToggle → RelayViewState
unfolding toggle_focus_effect focus_after tab_after
record_applied_toggle s pane a = record s {
  focused_pane = focus_after (toggle_focus_effect a.hint) pane s.focused_pane;
  active_tab = tab_after a.tab_after s.active_tab;
}
