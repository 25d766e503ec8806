-- ===== src/Herdr/Resume.antt =====
-- muxrd/src/multiplexer/herdr/relay.rs: which pane an attach lands on, from the hints of an earlier
-- one or else from what is in focus.
pub mod Lands
use muxr_core.Base.{
  ℕ, String, Option, none, some, Bool, true, false, not, ◌&&◌, ◌||◌, List, [], ◌∷◌, ite,
  if◌then◌else◌, string_discrete, is_some,
}
use muxr_core.Mux.Layout.{PaneRef}
use muxr_core.Herdr.PaneRegistry
use muxr_core.Herdr.PaneRegistry.{PaneInner}
use muxr_core.Herdr.TabRegistry
use muxr_core.Herdr.TabRegistry.{TabInner}
use muxr_core.Herdr.Kernel.Lines.{or_else, and_then, same_str}
use muxr_core.Herdr.Kernel.Resync.{PaneInfo}

-- What a client asks to resume.
pub record ResumeTarget : Type 0 where
  pub space_id : Option String
  pub tab_id : Option ℕ
  pub pane_id : Option ℕ

pub record AttachTarget : Type 0 where
  pub workspace_id : String
  pub tab_id : ℕ
  pub pane_id : ℕ
  pub terminal_id : String

pub record Registries : Type 0 where
  pub panes : PaneInner
  pub tabs : TabInner

-- Every pane of the listing gets its number.
unfoldable pub register_all : List PaneInfo → PaneInner → PaneInner
register_all [] r = r
register_all (p ∷ ps) r = register_all ps (PaneRegistry.assign_or_get r p.pane_id p.terminal_id).0

-- The last pane in focus, when one is, or the first pane.
unfoldable pub focused_from : Option PaneInfo → Option PaneInfo → List PaneInfo → Option PaneInfo
focused_from first focused [] = or_else focused first
focused_from first focused (p ∷ ps) =
    focused_from (or_else first (some p)) (if p.focused then some p else focused) ps

unfoldable pub focused_or_first : List PaneInfo → Option PaneInfo
unfolding focused_from
focused_or_first ps = focused_from none none ps

unfoldable pub in_tab : String → List PaneInfo → List PaneInfo
unfolding string_discrete
in_tab tab [] = []
in_tab tab (p ∷ ps) = let rest = in_tab tab ps in if same_str p.tab_id tab then p ∷ rest else rest

-- The hinted pane in the hinted tab.
unfoldable pub find_pane : String → String → List PaneInfo → Option PaneInfo
unfolding string_discrete
find_pane pane tab [] = none
find_pane pane tab (p ∷ ps) =
    let rest = find_pane pane tab ps in
    if same_str p.pane_id pane && same_str p.tab_id tab then some p else rest

-- A pane hint counts only beside a tab hint that agrees with it.
unfoldable pub corroborated : Option String → Option String → List PaneInfo → Option PaneInfo
unfolding find_pane
corroborated (some pane) (some tab) ps = find_pane pane tab ps
corroborated (some pane) none ps = none
corroborated none tab ps = none

unfoldable pub hinted_tab : Option String → List PaneInfo → Option PaneInfo
unfolding in_tab focused_or_first
hinted_tab none ps = none
hinted_tab (some tab) ps = focused_or_first (in_tab tab ps)

unfoldable pub chosen : Option String → Option String → List PaneInfo → Option PaneInfo
unfolding corroborated hinted_tab focused_or_first
chosen hint_pane hint_tab ps =
    or_else (corroborated hint_pane hint_tab ps)
      (or_else (hinted_tab hint_tab ps) (focused_or_first ps))

unfoldable pub land : String → Registries → Option PaneInfo → Registries × Option AttachTarget
land workspace regs none = (regs, none)
land workspace regs (some p) =
    let (tabs, tab) = TabRegistry.assign_or_get regs.tabs p.tab_id in
    let (panes, pane) = PaneRegistry.assign_or_get regs.panes p.pane_id p.terminal_id in
    (
      record { panes = panes; tabs = tabs },
      some (record {
        workspace_id = workspace;
        tab_id = tab;
        pane_id = pane;
        terminal_id = p.terminal_id;
      }),
    )

unfoldable pub pick_resume_pane :
    List PaneInfo
    → String
    → Option String
    → Option String
    → Registries
    → Registries × Option AttachTarget
unfolding register_all chosen land
pick_resume_pane ps workspace hint_pane hint_tab regs =
    land workspace (record regs { panes = register_all ps regs.panes })
      (chosen hint_pane hint_tab ps)

unfoldable pub hint_ids : Registries → ResumeTarget → Option String × Option String
hint_ids regs resume = (
  and_then resume.pane_id (PaneRegistry.herdr_pane_id regs.panes),
  and_then resume.tab_id (TabRegistry.herdr_tab_id regs.tabs),
)

-- herdr's answer to the listing of a workspace; none when the call fails.
abbrev pub Listing : Type 0
Listing = String → Option (List PaneInfo)

unfoldable pub in_listing :
    Option (List PaneInfo)
    → String
    → Option String
    → Option String
    → Registries
    → Registries × Option AttachTarget
unfolding pick_resume_pane
in_listing none workspace hint_pane hint_tab regs = (regs, none)
in_listing (some ps) workspace hint_pane hint_tab regs =
    pick_resume_pane ps workspace hint_pane hint_tab regs

module _ (list_panes : Listing) (default : String) (hint_pane hint_tab : Option String) where
  unfoldable pub resolve_in : String → Registries → Registries × Option AttachTarget
  unfolding in_listing
  resolve_in workspace regs = in_listing (list_panes workspace) workspace hint_pane hint_tab regs

  -- The default workspace, unless the space hinted at gave a target.
  unfoldable pub or_default : Registries × Option AttachTarget → Registries × Option AttachTarget
  unfolding resolve_in
  or_default (regs, some target) = (regs, some target)
  or_default (regs, none) = resolve_in default regs

  unfoldable pub resolve_attach_target_with :
      Option String → Registries → Registries × Option AttachTarget
  unfolding or_default resolve_in string_discrete
  resolve_attach_target_with none regs = resolve_in default regs
  resolve_attach_target_with (some space) regs =
      if same_str space default then resolve_in default regs else or_default (resolve_in space regs)

unfoldable pub resolve_attach_target :
    Listing → String → ResumeTarget → Registries → Registries × Option AttachTarget
unfolding hint_ids resolve_attach_target_with
resolve_attach_target list_panes default resume regs =
    let (hint_pane, hint_tab) = hint_ids regs resume in
    resolve_attach_target_with list_panes default hint_pane hint_tab resume.space_id regs

pub record ResumedView : Type 0 where
  pub space_id : String
  pub tab_id : ℕ
  pub pane : PaneRef

abbrev is_empty_resume : ResumeTarget → Bool
is_empty_resume r = not (is_some r.space_id) && not (is_some r.tab_id) && not (is_some r.pane_id)

unfoldable pub resumed_view_for : ResumeTarget → AttachTarget → Option ResumedView
resumed_view_for resume target =
    if is_empty_resume resume
    then none
    else some (record {
      space_id = target.workspace_id;
      tab_id = target.tab_id;
      pane = record { id = target.pane_id; is_plugin = false };
    })
