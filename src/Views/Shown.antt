-- ===== src/Views/Shown.antt =====
-- What the override in muxrd/src/grpc/layout.rs shows of the pane that a relay is on.
use muxr_core.Base.{
  ℕ, ◌≡◌, refl, sym, ap, ◌∙◌, subst, Option, none, some, Bool, true, false, not, ◌&&◌, ◌||◌, ◌==◌,
  List, [], ◌∷◌, is_some, arith,
}
use muxr_core.Mux.Layout.{PaneRef, PaneSnapshot, TabSnapshot, LayoutSnapshot, names, same_bool}
use muxr_core.Relay.Fullscreen.{RelayViewState}
use muxr_core.Views.{
  has_pane, tab_with, tab_of_pane, tracked_tab, resolve_effective_active_tab, PaneMsg, TabMsg,
  is_tab_or, focused_pane_of, is_pane_or, pane_msg, pane_msgs, tab_msg, tab_msgs, build_tab_msgs,
}

-- A pane of the list is the one named, and in focus.
unfoldable pub in_focus : PaneRef → List PaneMsg → Bool
unfolding same_bool
in_focus wanted [] = false
in_focus wanted (p ∷ ps) =
    (p.is_focused && same_bool wanted.is_plugin p.is_plugin && wanted.id == p.id)
    || in_focus wanted ps

-- The pane is in focus in a tab that is active.
unfoldable pub shows : PaneRef → List TabMsg → Bool
unfolding in_focus
shows wanted [] = false
shows wanted (t ∷ ts) = (t.active && in_focus wanted t.panes) || shows wanted ts

-- A tab of the list has the pane.
unfoldable pub somewhere : PaneRef → List TabSnapshot → Bool
unfolding has_pane
somewhere wanted [] = false
somewhere wanted (t ∷ ts) = has_pane wanted t.panes || somewhere wanted ts

-- No other pane than the one named is in focus.
unfoldable pub only_focus : PaneRef → List PaneMsg → Bool
unfolding same_bool
only_focus wanted [] = true
only_focus wanted (p ∷ ps) =
    (not p.is_focused || (same_bool wanted.is_plugin p.is_plugin && wanted.id == p.id))
    && only_focus wanted ps

unfoldable pub shows_only : PaneRef → List TabMsg → Bool
unfolding only_focus
shows_only wanted [] = true
shows_only wanted (t ∷ ts) = (not t.active || only_focus wanted t.panes) && shows_only wanted ts

same_bool_refl : (b : Bool) → same_bool b b ≡ true
unfolding same_bool
same_bool_refl true = refl
same_bool_refl false = refl

same_bool_sym : (a b : Bool) → same_bool a b ≡ same_bool b a
unfolding same_bool
same_bool_sym true true = refl
same_bool_sym true false = refl
same_bool_sym false true = refl
same_bool_sym false false = refl

pane_msgs-in_focus :
    (wanted : PaneRef) (ps : List PaneSnapshot)
    → has_pane wanted ps ≡ true
    → in_focus wanted (pane_msgs true (some wanted) ps) ≡ true
unfolding has_pane pane_msgs pane_msg is_pane_or in_focus names
pane_msgs-in_focus wanted [] h = cc
pane_msgs-in_focus wanted (p ∷ ps) h =
    ground (arith, pane_msgs-in_focus wanted ps, same_bool_sym p.is_plugin wanted.is_plugin)

pane_msgs-only_focus :
    (wanted : PaneRef) (ps : List PaneSnapshot)
    → only_focus wanted (pane_msgs true (some wanted) ps) ≡ true
unfolding pane_msgs pane_msg is_pane_or only_focus
pane_msgs-only_focus wanted [] = refl
pane_msgs-only_focus wanted (p ∷ ps) = ground (arith, pane_msgs-only_focus wanted ps)

tab_msgs-shows_only :
    (at : ℕ) (wanted : PaneRef) (ts : List TabSnapshot)
    → shows_only wanted (tab_msgs (some at) (some wanted) ts) ≡ true
unfolding tab_msgs tab_msg is_tab_or shows_only
tab_msgs-shows_only at wanted [] = refl
tab_msgs-shows_only at wanted (t ∷ ts) =
    ground (arith, tab_msgs-shows_only at wanted ts, pane_msgs-only_focus wanted t.panes)

tab_with-shows :
    (wanted : PaneRef) (ts : List TabSnapshot) (at : ℕ)
    → tab_with wanted ts ≡ some at
    → shows wanted (tab_msgs (some at) (some wanted) ts) ≡ true
unfolding tab_with tab_msgs tab_msg is_tab_or shows
tab_with-shows wanted [] at h = cc
tab_with-shows wanted (t ∷ ts) at h =
    ground (arith, h, tab_with-shows wanted ts at, pane_msgs-in_focus wanted t.panes)

tab_with-some :
    (wanted : PaneRef) (ts : List TabSnapshot)
    → somewhere wanted ts ≡ true
    → is_some (tab_with wanted ts) ≡ true
unfolding tab_with somewhere
tab_with-some wanted [] h = cc
tab_with-some wanted (t ∷ ts) h = ground (arith, tab_with-some wanted ts)

effective_tab :
    (vs : RelayViewState) (s : LayoutSnapshot) (wanted : PaneRef)
    → vs.focused_pane ≡ some wanted
    → vs.active_tab ≡ none
    → resolve_effective_active_tab (some vs) s ≡ tab_with wanted s.tabs
unfolding resolve_effective_active_tab tracked_tab tab_of_pane
effective_tab vs s wanted h e = ground (arith, h, e)

found-shows :
    (s : LayoutSnapshot) (wanted : PaneRef) (o : Option ℕ)
    → tab_with wanted s.tabs ≡ o
    → is_some o ≡ true
    → let msgs = tab_msgs o (some wanted) s.tabs in
      (shows wanted msgs ≡ true) × (shows_only wanted msgs ≡ true)
found-shows s wanted none h e = cc
found-shows s wanted (some at) h e =
    (tab_with-shows wanted s.tabs at h, tab_msgs-shows_only at wanted s.tabs)

-- When a relay knows its pane and not its tab, and a tab of the layout has that pane, the client is
-- told that the pane is in focus in a tab that is active, and no other pane of an active tab is.
pub build_tab_msgs-shows :
    (s : LayoutSnapshot) (vs : RelayViewState) (wanted : PaneRef)
    → vs.focused_pane ≡ some wanted
    → vs.active_tab ≡ none
    → somewhere wanted s.tabs ≡ true
    → (shows wanted (build_tab_msgs s (some vs)) ≡ true)
      × (shows_only wanted (build_tab_msgs s (some vs)) ≡ true)
unfolding build_tab_msgs focused_pane_of
build_tab_msgs-shows s vs wanted h e w =
    subst (λ (msgs : List TabMsg). (shows wanted msgs ≡ true) × (shows_only wanted msgs ≡ true))
      (sym (
        ap (λ (o : Option ℕ). tab_msgs o vs.focused_pane s.tabs) (effective_tab vs s wanted h e)
        ∙ ap (λ (f : Option PaneRef). tab_msgs (tab_with wanted s.tabs) f s.tabs) h))
      (found-shows s wanted (tab_with wanted s.tabs) refl (tab_with-some wanted s.tabs w))
