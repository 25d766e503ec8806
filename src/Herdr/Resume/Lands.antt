-- ===== src/Herdr/Resume/Lands.antt =====
-- An attach that resumes lands on a pane of herdr's listing, and no hint keeps it from landing.
use muxr_core.Base.{
  ◌≡◌, refl, ap, ◌∙◌, String, Option, none, some, Bool, true, false, ◌&&◌, ◌||◌, List, [], ◌∷◌,
  is_some, if◌then◌else◌, if_keeps, All, All-mono, arith,
}
use muxr_core.Herdr.Kernel.Lines.{or_else, same_str}
use muxr_core.Herdr.Kernel.Resync.{PaneInfo}
use muxr_core.Herdr.Resume.{
  AttachTarget, Registries, Listing, focused_from, focused_or_first, in_tab, find_pane,
  corroborated, hinted_tab, chosen, register_all, land, pick_resume_pane, in_listing, resolve_in,
  or_default, resolve_attach_target_with,
}

-- The listing has a pane with that terminal.
unfoldable pub has_terminal : String → List PaneInfo → Bool
has_terminal t [] = false
has_terminal t (p ∷ ps) = same_str t p.terminal_id || has_terminal t ps

unfoldable pub offers : Option (List PaneInfo) → String → Bool
unfolding has_terminal
offers none t = false
offers (some ps) t = has_terminal t ps

abbrev Opt : (PaneInfo → Type 0) → Option PaneInfo → Type 0
Opt P none = Unit
Opt P (some p) = P p

Opt-or_else :
    (P : PaneInfo → Type 0) (o o' : Option PaneInfo) → Opt P o → Opt P o' → Opt P (or_else o o')
Opt-or_else P none o' a b = b
Opt-or_else P (some p) o' a b = a

focused_from-Opt :
    (P : PaneInfo → Type 0) (first focused : Option PaneInfo) (ps : List PaneInfo)
    → Opt P first
    → Opt P focused
    → All P ps
    → Opt P (focused_from first focused ps)
unfolding focused_from
focused_from-Opt P first focused [] a b w = Opt-or_else P focused first b a
focused_from-Opt P first focused (p ∷ ps) a b w =
    focused_from-Opt P (or_else first (some p)) (if p.focused then some p else focused) ps
      (Opt-or_else P first (some p) a w.0) (if_keeps (Opt P) p.focused (some p) focused w.0 b) w.1

in_tab-All :
    (P : PaneInfo → Type 0) (tab : String) (ps : List PaneInfo) → All P ps → All P (in_tab tab ps)
unfolding in_tab
in_tab-All P tab [] w = tt
in_tab-All P tab (p ∷ ps) w =
    if_keeps (All P) (same_str p.tab_id tab) (p ∷ in_tab tab ps) (in_tab tab ps)
      (w.0, in_tab-All P tab ps w.1) (in_tab-All P tab ps w.1)

find_pane-Opt :
    (P : PaneInfo → Type 0) (pane tab : String) (ps : List PaneInfo)
    → All P ps
    → Opt P (find_pane pane tab ps)
unfolding find_pane
find_pane-Opt P pane tab [] w = tt
find_pane-Opt P pane tab (p ∷ ps) w =
    if_keeps (Opt P) (same_str p.pane_id pane && same_str p.tab_id tab) (some p)
      (find_pane pane tab ps) w.0 (find_pane-Opt P pane tab ps w.1)

corroborated-Opt :
    (P : PaneInfo → Type 0) (hp ht : Option String) (ps : List PaneInfo)
    → All P ps
    → Opt P (corroborated hp ht ps)
unfolding corroborated
corroborated-Opt P (some pane) (some tab) ps w = find_pane-Opt P pane tab ps w
corroborated-Opt P (some pane) none ps w = tt
corroborated-Opt P none ht ps w = tt

hinted_tab-Opt :
    (P : PaneInfo → Type 0) (ht : Option String) (ps : List PaneInfo)
    → All P ps
    → Opt P (hinted_tab ht ps)
unfolding hinted_tab focused_or_first
hinted_tab-Opt P none ps w = tt
hinted_tab-Opt P (some tab) ps w =
    focused_from-Opt P none none (in_tab tab ps) tt tt (in_tab-All P tab ps w)

chosen-Opt :
    (P : PaneInfo → Type 0) (hp ht : Option String) (ps : List PaneInfo)
    → All P ps
    → Opt P (chosen hp ht ps)
unfolding chosen focused_or_first
chosen-Opt P hp ht ps w =
    Opt-or_else P (corroborated hp ht ps) (or_else (hinted_tab ht ps) (focused_or_first ps))
      (corroborated-Opt P hp ht ps w)
      (Opt-or_else P (hinted_tab ht ps) (focused_or_first ps) (hinted_tab-Opt P ht ps w)
        (focused_from-Opt P none none ps tt tt w))

listing-All : (ps : List PaneInfo) → All (λ q. has_terminal q.terminal_id ps ≡ true) ps
unfolding has_terminal
listing-All [] = tt
listing-All (p ∷ ps) = (
  ground arith,
  All-mono (λ (q : PaneInfo). has_terminal q.terminal_id ps ≡ true)
      (λ (q : PaneInfo). has_terminal q.terminal_id (p ∷ ps) ≡ true) ps (λ q h. ground (arith, h))
      (listing-All ps),
)

focused_from-some :
    (first focused : Option PaneInfo) (ps : List PaneInfo)
    → is_some first ≡ true
    → is_some (focused_from first focused ps) ≡ true
unfolding focused_from
focused_from-some none focused ps h = cc
focused_from-some (some f) none [] h = refl
focused_from-some (some f) (some g) [] h = refl
focused_from-some (some f) focused (p ∷ ps) h =
    focused_from-some (some f) (if p.focused then some p else focused) ps refl

or_else-some : (o o' : Option PaneInfo) → is_some o' ≡ true → is_some (or_else o o') ≡ true
or_else-some none o' h = h
or_else-some (some p) o' h = refl

chosen-some :
    (hp ht : Option String) (p : PaneInfo) (ps : List PaneInfo)
    → is_some (chosen hp ht (p ∷ ps)) ≡ true
unfolding chosen focused_or_first focused_from
chosen-some hp ht p ps =
    or_else-some (corroborated hp ht (p ∷ ps))
      (or_else (hinted_tab ht (p ∷ ps)) (focused_or_first (p ∷ ps)))
      (or_else-some (hinted_tab ht (p ∷ ps)) (focused_or_first (p ∷ ps))
        (focused_from-some (some p) (if p.focused then some p else none) ps refl))

land-some :
    (workspace : String) (regs : Registries) (o : Option PaneInfo)
    → is_some (land workspace regs o).1 ≡ is_some o
unfolding land
land-some workspace regs none = refl
land-some workspace regs (some p) = refl

module _ (list_panes : Listing) where
  -- What landed is in the listing of its workspace.
  abbrev pub Landed : Registries × Option AttachTarget → Type 0
  Landed (regs, none) = Unit
  Landed (regs, some t) = offers (list_panes t.workspace_id) t.terminal_id ≡ true

  land-Landed :
      (workspace : String) (regs : Registries) (ps : List PaneInfo) (o : Option PaneInfo)
      → list_panes workspace ≡ some ps
      → Opt (λ q. has_terminal q.terminal_id ps ≡ true) o
      → Landed (land workspace regs o)
  unfolding land offers
  land-Landed workspace regs ps none h w = tt
  land-Landed workspace regs ps (some p) h w =
      ap (λ (l : Option (List PaneInfo)). offers l p.terminal_id) h ∙ w

  in_listing-Landed :
      (o : Option (List PaneInfo)) (workspace : String) (hp ht : Option String) (regs : Registries)
      → list_panes workspace ≡ o
      → Landed (in_listing o workspace hp ht regs)
  unfolding in_listing pick_resume_pane
  in_listing-Landed none workspace hp ht regs h = tt
  in_listing-Landed (some ps) workspace hp ht regs h =
      land-Landed workspace (record regs { panes = register_all ps regs.panes }) ps
        (chosen hp ht ps) h
        (chosen-Opt (λ (q : PaneInfo). has_terminal q.terminal_id ps ≡ true) hp ht ps
          (listing-All ps))

  module _ (default : String) (hp ht : Option String) where
    or_default-Landed :
        (r : Registries × Option AttachTarget)
        → Landed r
        → Landed (or_default list_panes default hp ht r)
    unfolding or_default resolve_in
    or_default-Landed (regs, some t) w = w
    or_default-Landed (regs, none) w =
        in_listing-Landed (list_panes default) default hp ht regs refl

    resolve-Landed :
        (space : Option String) (regs : Registries)
        → Landed (resolve_attach_target_with list_panes default hp ht space regs)
    unfolding resolve_attach_target_with resolve_in
    resolve-Landed none regs = in_listing-Landed (list_panes default) default hp ht regs refl
    resolve-Landed (some space) regs =
        if_keeps Landed (same_str space default)
          (in_listing (list_panes default) default hp ht regs)
          (or_default list_panes default hp ht (in_listing (list_panes space) space hp ht regs))
          (in_listing-Landed (list_panes default) default hp ht regs refl)
          (or_default-Landed (in_listing (list_panes space) space hp ht regs)
            (in_listing-Landed (list_panes space) space hp ht regs refl))

    default-some :
        (regs : Registries) (p : PaneInfo) (ps : List PaneInfo)
        → list_panes default ≡ some (p ∷ ps)
        → is_some (in_listing (list_panes default) default hp ht regs).1 ≡ true
    unfolding in_listing pick_resume_pane
    default-some regs p ps h =
        ap (λ (l : Option (List PaneInfo)). is_some (in_listing l default hp ht regs).1) h
        ∙ land-some default (record regs { panes = register_all (p ∷ ps) regs.panes })
            (chosen hp ht (p ∷ ps))
        ∙ chosen-some hp ht p ps

    or_default-some :
        (r : Registries × Option AttachTarget) (p : PaneInfo) (ps : List PaneInfo)
        → list_panes default ≡ some (p ∷ ps)
        → is_some (or_default list_panes default hp ht r).1 ≡ true
    unfolding or_default resolve_in
    or_default-some (regs, some t) p ps h = refl
    or_default-some (regs, none) p ps h = default-some regs p ps h

    -- While the default workspace lists a pane, an attach lands whatever its hints are and whatever
    -- herdr answers for the space that they name, and it lands on a terminal that herdr lists for
    -- the workspace that the target names.
    pub resolve_attach_target-Landed :
        (space : Option String) (regs : Registries) (p : PaneInfo) (ps : List PaneInfo)
        → list_panes default ≡ some (p ∷ ps)
        → let r = resolve_attach_target_with list_panes default hp ht space regs in
          (is_some r.1 ≡ true) × Landed r
    unfolding resolve_attach_target_with resolve_in
    resolve_attach_target-Landed none regs p ps h =
        (default-some regs p ps h, resolve-Landed none regs)
    resolve_attach_target-Landed (some space) regs p ps h = (
      if_keeps (λ (r : Registries × Option AttachTarget). is_some r.1 ≡ true)
          (same_str space default) (in_listing (list_panes default) default hp ht regs)
          (or_default list_panes default hp ht (in_listing (list_panes space) space hp ht regs))
          (default-some regs p ps h)
          (or_default-some (in_listing (list_panes space) space hp ht regs) p ps h),
      resolve-Landed (some space) regs,
    )
