-- ===== src/Mux/Context.antt =====
-- muxrd/src/multiplexer/types.rs: what a fullscreen toggle is decided on, and how it is read from
-- a layout.
use muxr_core.Base.{
  ◌≡◌, refl, ℕ, Option, none, some, Bool, true, false, ◌&&◌, ◌||◌, List, [], ◌∷◌, if◌then◌else◌,
  Option-cases, Bool-cases, arith, inl, inr, sym, is_some,
}
use muxr_core.Mux.Layout.{PaneRef, PaneSnapshot, TabSnapshot, LayoutSnapshot, names}

pub record FullscreenHint : Type 0 where
  pub is_floating : Bool
  pub floating_visible : Bool
  pub is_focused_floating : Bool
  pub tab_fullscreen : Bool
  pub target_is_relay_focus : Bool

pub record PaneFullscreenContext : Type 0 where
  pub exists : Bool
  pub is_floating : Bool
  pub floating_visible : Bool
  pub focused_floating : Option PaneRef
  pub tab_fullscreen : Bool
  pub tab_id : Option ℕ
  pub tab_active : Bool
  pub relay_focus_tab_id : Option ℕ

abbrev pub not_found : PaneFullscreenContext
not_found = record {
  exists = false;
  is_floating = false;
  floating_visible = false;
  focused_floating = none;
  tab_fullscreen = false;
  tab_id = none;
  tab_active = false;
  relay_focus_tab_id = none;
}

-- `Iterator::find` and `any`.
unfoldable pub find {ℓ} : {A : Type ℓ} → (A → Bool) → List A → Option A
find p [] = none
find p (x ∷ xs) = if p x then some x else find p xs

abbrev pub any {ℓ} : {A : Type ℓ} → (A → Bool) → List A → Bool
any p [] = false
any p (x ∷ xs) = p x || any p xs

unfoldable pub tab_of : LayoutSnapshot → PaneRef → Option TabSnapshot
unfolding find
tab_of s wanted = find (λ t. any (names wanted) t.panes) s.tabs

unfoldable pub focus_tab_id : LayoutSnapshot → Option PaneRef → Option ℕ
focus_tab_id s none = none
focus_tab_id s (some p) = elim (tab_of s p) [ none ↦ none | some t ↦ some t.tab_id ]

unfoldable pub focused_floating_of : List PaneSnapshot → Option PaneRef
focused_floating_of ps = elim (find (λ p. p.is_floating && p.is_focused) ps) [
  | none ↦ none
  | some p ↦ some (record { id = p.id; is_plugin = p.is_plugin })
]

-- The loop over the tabs: the first that holds the pane answers.
unfoldable pub from_tabs : List TabSnapshot → PaneRef → Option ℕ → PaneFullscreenContext
from_tabs [] pane relay_focus_tab = not_found
from_tabs (t ∷ ts) pane relay_focus_tab = elim (find (names pane) t.panes) [
  | none ↦ from_tabs ts pane relay_focus_tab
  | some target ↦ record {
    exists = true;
    is_floating = target.is_floating;
    floating_visible = t.floating_panes_visible;
    focused_floating = focused_floating_of t.panes;
    tab_fullscreen = t.fullscreen_active;
    tab_id = some t.tab_id;
    tab_active = t.active;
    relay_focus_tab_id = relay_focus_tab;
  }
]

unfoldable pub from_snapshot : LayoutSnapshot → PaneRef → Option PaneRef → PaneFullscreenContext
from_snapshot s pane relay_focus = from_tabs s.tabs pane (focus_tab_id s relay_focus)

find-any {ℓ} : {A : Type ℓ} (p : A → Bool) (xs : List A) → is_some (find p xs) ≡ any p xs
unfolding find
find-any p [] = refl
find-any p (x ∷ xs) = elim (Bool-cases (p x)) [ inl h ↦ rw h refl | inr h ↦ rw h (find-any p xs) ]

any-none :
    (t : TabSnapshot) (pane : PaneRef)
    → find (names pane) t.panes ≡ none
    → any (names pane) t.panes ≡ false
any-none t pane h = rw (sym (find-any (names pane) t.panes), h) refl

any-some :
    (t : TabSnapshot) (pane : PaneRef) (q : PaneSnapshot)
    → find (names pane) t.panes ≡ some q
    → any (names pane) t.panes ≡ true
any-some t pane q h = rw (sym (find-any (names pane) t.panes), h) refl

from_tabs-tab_id :
    (ts : List TabSnapshot) (pane : PaneRef) (f : Option ℕ)
    → (from_tabs ts pane f).tab_id
      ≡ elim (find (λ t. any (names pane) t.panes) ts) [ none ↦ none | some t ↦ some t.tab_id ]
unfolding from_tabs find
from_tabs-tab_id [] pane f = refl
from_tabs-tab_id (t ∷ ts) pane f = elim (Option-cases (find (names pane) t.panes)) [
  | inl h ↦ ground (arith, h, any-none t pane h, from_tabs-tab_id ts pane f)
  | inr (q, h) ↦ ground (arith, h, any-some t pane q h)
]

-- A pane is placed in the same tab whether it is the target of the reading or the relay's focus.
pub from_snapshot-tab_id :
    (s : LayoutSnapshot) (pane : PaneRef) (focus : Option PaneRef)
    → (from_snapshot s pane focus).tab_id ≡ focus_tab_id s (some pane)
unfolding from_snapshot focus_tab_id tab_of
from_snapshot-tab_id s pane focus = from_tabs-tab_id s.tabs pane (focus_tab_id s focus)

from_tabs_focus :
    (ts : List TabSnapshot) (pane : PaneRef) (f : Option ℕ)
    → (from_tabs ts pane f).exists ≡ true
    → (from_tabs ts pane f).relay_focus_tab_id ≡ f
unfolding from_tabs
from_tabs_focus [] pane f h = cc
from_tabs_focus (t ∷ ts) pane f h = ground (arith, from_tabs_focus ts pane f)

pub from_snapshot_focus :
    (s : LayoutSnapshot) (pane : PaneRef) (focus : Option PaneRef)
    → (from_snapshot s pane focus).exists ≡ true
    → (from_snapshot s pane focus).relay_focus_tab_id ≡ focus_tab_id s focus
unfolding from_snapshot
from_snapshot_focus s pane focus h = from_tabs_focus s.tabs pane (focus_tab_id s focus) h

from_tabs_placed :
    (ts : List TabSnapshot) (pane : PaneRef) (f : Option ℕ)
    → (from_tabs ts pane f).exists ≡ true
    → is_some (from_tabs ts pane f).tab_id ≡ true
unfolding from_tabs
from_tabs_placed [] pane f h = cc
from_tabs_placed (t ∷ ts) pane f h = ground (arith, from_tabs_placed ts pane f)

pub from_snapshot_placed :
    (s : LayoutSnapshot) (pane : PaneRef) (focus : Option PaneRef)
    → (from_snapshot s pane focus).exists ≡ true
    → is_some (from_snapshot s pane focus).tab_id ≡ true
unfolding from_snapshot
from_snapshot_placed s pane focus h = from_tabs_placed s.tabs pane (focus_tab_id s focus) h
