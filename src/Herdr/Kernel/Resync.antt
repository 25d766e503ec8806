-- ===== src/Herdr/Kernel/Resync.antt =====
-- What the kernel lists over herdr's control socket, in muxrd/src/multiplexer/herdr/subscribe.rs:
-- the enumeration of panes, the resync, and the liveness probe. Of what herdr answers the records
-- have the fields that the daemon reads.
pub mod Tracked
pub mod Calm
pub mod Settled
use muxr_core.Base.{
  ℕ, String, Option, none, some, Bool, true, false, not, ◌&&◌, List, [], ◌∷◌, ◌++◌, map, Map,
  lookup, insert, remove, retain_keys, keys, contains, add, keep, ltb, ◌==◌, if◌then◌else◌,
  is_empty_str, nat_key, string_key,
}
use muxr_core.Mux.Layout.{AgentStatus, idle, working, blocked, done, unknown}
use muxr_core.Mux.Events.{AgentStatusChanged, MuxEvent, pane_closed, agent_status_changed, resynced}
use muxr_core.Herdr.PaneRegistry.{PaneInner, assign_or_get, id_for_herdr_pane}
use muxr_core.Herdr.TabRegistry
use muxr_core.Herdr.TabRegistry.{TabInner}
use muxr_core.Herdr.Kernel.Lines.{HerdrAgentStatus, map_status, agent_kind, and_then}

pub record WorkspaceInfo : Type 0 where
  pub workspace_id : String
  pub label : String

pub record PaneInfo : Type 0 where
  pub pane_id : String
  pub terminal_id : String
  pub tab_id : String
  pub title : Option String
  pub agent : Option String
  pub display_agent : Option String
  pub focused : Bool
  pub agent_status : HerdrAgentStatus

-- herdr's answers to the two list calls; none when the call fails.
pub record Control : Type 0 where
  pub list_workspaces : Option (List WorkspaceInfo)
  pub list_panes : String → Option (List PaneInfo)

-- The panes of the workspaces, one after the other, or none when a call fails.
unfoldable pub panes_of :
    (String → Option (List PaneInfo))
    → List WorkspaceInfo
    → Option (List (WorkspaceInfo × PaneInfo))
panes_of list_panes [] = some []
panes_of list_panes (ws ∷ wss) =
    let rest = panes_of list_panes wss in
    and_then (list_panes ws.workspace_id)
      (λ ps. and_then rest (λ qs. some (map (λ p. (ws, p)) ps ++ qs)))

unfoldable pub list_all : Control → Option (List (WorkspaceInfo × PaneInfo))
unfolding panes_of
list_all control = and_then control.list_workspaces (panes_of control.list_panes)

unfoldable pub collect_pane_ids : Control → Option (List String)
unfolding list_all
collect_pane_ids control = and_then (list_all control) (λ ps. some (map (λ (ws, p). p.pane_id) ps))

pub record ResyncPane : Type 0 where
  pub herdr_pane_id : String
  pub terminal_id : String
  pub workspace_id : String
  pub workspace_label : String
  pub tab_id : String
  pub title : Option String
  pub agent : Option String
  pub display_agent : Option String
  pub status : HerdrAgentStatus

unfoldable pub resync_pane : WorkspaceInfo × PaneInfo → ResyncPane
resync_pane (ws, p) = record {
  herdr_pane_id = p.pane_id;
  terminal_id = p.terminal_id;
  workspace_id = ws.workspace_id;
  workspace_label = ws.label;
  tab_id = p.tab_id;
  title = p.title;
  agent = p.agent;
  display_agent = p.display_agent;
  status = p.agent_status;
}

-- The registries, and what the kernel last observed of each pane.
pub record Tables : Type 0 where
  pub panes : PaneInner
  pub tabs : TabInner
  pub last_status : Map ℕ AgentStatus
  pub pane_tabs : Map ℕ ℕ

pub record ResyncEvents : Type 0 where
  pub closed : List ℕ
  pub changed : List AgentStatusChanged

-- The derived equality of the statuses.
unfoldable pub status_number : AgentStatus → ℕ
status_number idle = 0
status_number working = 1
status_number blocked = 2
status_number done = 3
status_number unknown = 4

unfoldable pub same_status : AgentStatus → AgentStatus → Bool
unfolding status_number
same_status a b = status_number a == status_number b

-- `last_status.get(&id) == Some(&status)`.
abbrev pub is_status : Option AgentStatus → AgentStatus → Bool
is_status none status = false
is_status (some known) status = same_status known status

-- The tab's number, unless herdr sent no tab.
unfoldable pub tab_of : TabInner → String → TabInner × Option ℕ
tab_of tabs tab =
    let (tabs', id) = TabRegistry.assign_or_get tabs tab in
    if is_empty_str tab then (tabs, none) else (tabs', some id)

unfoldable pub set_tab : ℕ → Option ℕ → Map ℕ ℕ → Map ℕ ℕ
unfolding insert remove
set_tab id none m = remove id m
set_tab id (some tab) m = insert id tab m

unfoldable pub synthetic_event : ResyncPane → ℕ → Option ℕ → AgentStatusChanged
unfolding agent_kind map_status
synthetic_event p id tab = record {
  pane = id;
  workspace_id = p.workspace_id;
  workspace_name = some p.workspace_label;
  status = map_status p.status;
  title = p.title;
  kind = agent_kind p.agent p.display_agent;
  name = none;
  tab = tab;
  synthetic = true;
}

-- What the loop over the panes carries: the tables, the live panes and the events.
pub record Pass : Type 0 where
  pub tables : Tables
  pub live : List ℕ
  pub events : List AgentStatusChanged

unfoldable pub observe_pane : ResyncPane → Pass → Pass
unfolding assign_or_get tab_of set_tab add lookup insert same_status map_status synthetic_event
observe_pane p s =
    let t = s.tables in
    let (panes, id) = assign_or_get t.panes p.herdr_pane_id p.terminal_id in
    let (tabs, tab) = tab_of t.tabs p.tab_id in
    let status = map_status p.status in
    record {
      tables = record {
        panes = panes;
        tabs = tabs;
        last_status = insert id status t.last_status;
        pane_tabs = set_tab id tab t.pane_tabs;
      };
      live = add id s.live;
      events =
          if is_status (lookup id t.last_status) status
          then s.events
          else s.events ++ (synthetic_event p id tab ∷ []);
    }

unfoldable pub observe : List ResyncPane → Pass → Pass
unfolding observe_pane
observe [] s = s
observe (p ∷ ps) s = observe ps (observe_pane p s)

-- `sort_unstable` with `dedup`: ascending, each number once.
unfoldable pub put_sorted : ℕ → List ℕ → List ℕ
put_sorted n [] = n ∷ []
put_sorted n (m ∷ ms) =
    let rest = put_sorted n ms in
    if ltb n m then n ∷ m ∷ ms else if n == m then m ∷ ms else m ∷ rest

unfoldable pub sort_dedup : List ℕ → List ℕ
unfolding put_sorted
sort_dedup [] = []
sort_dedup (n ∷ ns) = put_sorted n (sort_dedup ns)

-- The panes of the tables that are no longer live.
unfoldable pub closed_of : List ℕ → Tables → List ℕ
unfolding sort_dedup keep contains
closed_of live t =
    sort_dedup (keep (λ id. not (contains id live)) (keys t.last_status ++ keys t.pane_tabs))

unfoldable pub prune : List ℕ → Tables → Tables
unfolding retain_keys contains
prune live t = record t {
  last_status = retain_keys (λ id. contains id live) t.last_status;
  pane_tabs = retain_keys (λ id. contains id live) t.pane_tabs;
}

abbrev pub start : Tables → Pass
start t = record { tables = t; live = []; events = [] }

unfoldable pub build_resync_events : List ResyncPane → Tables → Tables × ResyncEvents
unfolding observe closed_of prune
build_resync_events input t =
    let s = observe input (start t) in
    (prune s.live s.tables, record { closed = closed_of s.live s.tables; changed = s.events })

unfoldable pub into_bus_events : ResyncEvents → List MuxEvent
into_bus_events e = map pane_closed e.closed ++ map agent_status_changed e.changed

unfoldable pub collect_resync_events : Control → Tables → Option (Tables × ResyncEvents)
unfolding list_all resync_pane build_resync_events
collect_resync_events control t =
    and_then (list_all control) (λ ps. some (build_resync_events (map resync_pane ps) t))

unfoldable pub published : Tables → Option (Tables × ResyncEvents) → Tables × List MuxEvent
unfolding into_bus_events
published t none = (t, resynced ∷ [])
published t (some (t', e)) = (t', into_bus_events e ++ (resynced ∷ []))

-- The tables after the resync and the events that it sends, in order. A resync that failed still
-- sends the marker.
unfoldable pub resync : Control → Tables → Tables × List MuxEvent
unfolding collect_resync_events published
resync control t = published t (collect_resync_events control t)

pub record ProbePane : Type 0 where
  pub herdr_pane_id : String
  pub pane : Option ℕ
  pub status : AgentStatus

pub data Verdict : Type 0 where
  healthy : Verdict
  lifecycle_wedged : Verdict
  status_wedged : Verdict

unfoldable pub probe_pane : PaneInner → WorkspaceInfo × PaneInfo → ProbePane
unfolding id_for_herdr_pane map_status
probe_pane panes (ws, p) = record {
  herdr_pane_id = p.pane_id;
  pane = id_for_herdr_pane panes p.pane_id;
  status = map_status p.agent_status;
}

unfoldable pub collect_probe_panes : Control → PaneInner → Option (List ProbePane)
unfolding list_all probe_pane
collect_probe_panes control panes =
    and_then (list_all control) (λ ps. some (map (probe_pane panes) ps))

-- The known status of a pane is another than the one observed.
unfoldable pub moved : Map ℕ AgentStatus → ProbePane → Bool
unfolding lookup same_status
moved last_status p = elim (and_then p.pane (λ id. lookup id last_status)) [
  | none ↦ false
  | some known ↦ not (same_status known p.status)
]

-- The loop, with whether a pane before these moved.
unfoldable pub verdict_from : List String → Map ℕ AgentStatus → Bool → List ProbePane → Verdict
unfolding contains moved
verdict_from subscribed last_status wedged [] = if wedged then status_wedged else healthy
verdict_from subscribed last_status wedged (p ∷ ps) =
    let now = if moved last_status p then true else wedged in
    let rest = verdict_from subscribed last_status now ps in
    if contains p.herdr_pane_id subscribed then rest else lifecycle_wedged

unfoldable pub watchdog_verdict : List ProbePane → List String → Map ℕ AgentStatus → Verdict
unfolding verdict_from
watchdog_verdict observed subscribed last_status =
    verdict_from subscribed last_status false observed

-- None when herdr did not answer.
unfoldable pub liveness_probe : Control → Tables → List String → Option Verdict
unfolding collect_probe_panes watchdog_verdict
liveness_probe control t subscribed =
    and_then (collect_probe_panes control t.panes)
      (λ observed. some (watchdog_verdict observed subscribed t.last_status))
