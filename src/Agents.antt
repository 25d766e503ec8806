-- ===== src/Agents.antt =====
-- muxrd/src/grpc/agent_ops.rs: the stream of a session's agents. Of the protocol's rows a status is
-- the status itself. A turn of the loop has what the select yields; a backend's read is its answer.
pub mod Watch
pub mod Mirror
pub mod Cuts
pub mod Sections
pub mod Follows
pub mod Faithful
use muxr_core.Base.{
  ℕ, ◌+◌, String, Option, none, some, Bool, true, false, not, ◌&&◌, ◌||◌, List, [], ◌∷◌, ◌++◌, map,
  Map, lookup, insert, remove, keys, contains, add, discard, keep, ltb, leb, ◌==◌, ite, is_some,
  if◌then◌else◌, ℕ_discrete, string_discrete, nat_key, string_key,
}
use muxr_core.Mux.Layout.{AgentStatus}
use muxr_core.Mux.Events.{
  AgentStatusChanged, MuxEvent, agent_status_changed, layout_changed, pane_closed, resynced,
}
use muxr_core.Mux.Agents.{AgentSnapshot, AgentSummary, sort_agents, summary_of}
use muxr_core.Herdr.Kernel.Resync.{sort_dedup}

pub record AgentMsg : Type 0 where
  pub pane_id : ℕ
  pub tab_id : ℕ
  pub space_id : String
  pub space_name : String
  pub tab_name : String
  pub kind : String
  pub name : String
  pub display_kind : String
  pub status : AgentStatus
  pub title : String
  pub summary : String
  pub cwd : String
  pub focused : Bool
  pub change_seq : ℕ
  pub completion_seq : ℕ
  pub has_completion_seq : Bool

unfoldable pub msg_discrete : Discrete AgentMsg
msg_discrete = hlevel (ℕ_discrete, string_discrete)

pub record AgentList : Type 0 where
  pub agents : List AgentMsg
  pub summary : AgentSummary

pub data AgentEvent : Type 0 where
  snapshot : AgentList → AgentEvent
  changed : AgentMsg → AgentEvent
  removed : ℕ → AgentEvent

-- `Option::unwrap_or_default`.
abbrev pub text_or_empty : Option String → String
text_or_empty none = ""
text_or_empty (some s) = s

abbrev pub number_or_zero : Option ℕ → ℕ
number_or_zero none = 0
number_or_zero (some n) = n

unfoldable pub agent_msg : AgentSnapshot → AgentMsg
agent_msg a = record {
  pane_id = a.pane;
  tab_id = a.tab_id;
  space_id = a.space_id;
  space_name = a.space_name;
  tab_name = a.tab_name;
  kind = a.kind;
  name = text_or_empty a.name;
  display_kind = text_or_empty a.display_kind;
  status = a.status;
  title = text_or_empty a.title;
  summary = text_or_empty a.summary;
  cwd = text_or_empty a.cwd;
  focused = a.focused;
  change_seq = a.change_seq;
  completion_seq = number_or_zero a.completion_seq;
  has_completion_seq = is_some a.completion_seq;
}

unfoldable pub build_agent_list : List AgentSnapshot → AgentList
unfolding sort_agents summary_of agent_msg
build_agent_list snapshots =
    let sorted = sort_agents snapshots in
    record { agents = map agent_msg sorted; summary = summary_of sorted }

-- A later row of the same pane takes the place of an earlier one.
unfoldable pub hold_rows : List AgentMsg → Map ℕ AgentMsg → Map ℕ AgentMsg
unfolding insert
hold_rows [] held = held
hold_rows (a ∷ rest) held = hold_rows rest (insert a.pane_id a held)

unfoldable pub hold : AgentList → Map ℕ AgentMsg
unfolding hold_rows
hold list = hold_rows list.agents []

-- The row that a status event makes of the held one, when both name one agent.
unfoldable pub updated : AgentStatusChanged → String → ℕ → AgentMsg → Option AgentMsg
unfolding string_discrete ℕ_discrete
updated ev kind tab row =
    if not (ite (string_discrete kind row.kind) true false)
      || not (ite (ℕ_discrete tab row.tab_id) true false)
      || not (ite (string_discrete ev.workspace_id row.space_id) true false)
    then none
    else some (record row {
      status = ev.status;
      title = elim ev.title [ none ↦ row.title | some t ↦ t ];
      name = elim ev.name [ none ↦ row.name | some n ↦ n ];
    })

unfoldable pub apply_row :
    AgentStatusChanged → Option String → Option ℕ → Option AgentMsg → Option AgentMsg
unfolding updated
apply_row ev (some kind) (some tab) (some row) = updated ev kind tab row
apply_row ev none tab row = none
apply_row ev (some kind) none row = none
apply_row ev (some kind) (some tab) none = none

unfoldable pub apply_status : Map ℕ AgentMsg → AgentStatusChanged → Option AgentMsg
unfolding apply_row lookup
apply_status held ev = apply_row ev ev.kind ev.tab (lookup ev.pane held)

-- `held.get(&a.pane_id) == Some(a)`.
unfoldable pub is_held : Option AgentMsg → AgentMsg → Bool
unfolding msg_discrete
is_held none a = false
is_held (some b) a = ite (msg_discrete b a) true false

unfoldable pub not_deferred : List ℕ → List AgentMsg → List AgentMsg
unfolding contains
not_deferred defer [] = []
not_deferred defer (a ∷ rest) =
    let after = not_deferred defer rest in if contains a.pane_id defer then after else a ∷ after

-- The events of the rows that are not held as they are.
unfoldable pub changes : Map ℕ AgentMsg → List AgentMsg → List AgentEvent
unfolding is_held lookup
changes held [] = []
changes held (a ∷ rest) =
    let after = changes held rest in
    if is_held (lookup a.pane_id held) a then after else changed a ∷ after

-- `sort_unstable`.
unfoldable pub put_number : ℕ → List ℕ → List ℕ
put_number n [] = n ∷ []
put_number n (m ∷ ms) = let rest = put_number n ms in if leb n m then n ∷ m ∷ ms else m ∷ rest

unfoldable pub sort_unstable : List ℕ → List ℕ
unfolding put_number
sort_unstable [] = []
sort_unstable (n ∷ ns) = put_number n (sort_unstable ns)

unfoldable pub gone_panes : Map ℕ AgentMsg → List ℕ → Map ℕ AgentMsg → List ℕ
unfolding sort_unstable keep contains lookup
gone_panes held defer next =
    sort_unstable
      (keep (λ pane. not (contains pane defer) && not (is_some (lookup pane next))) (keys held))

-- The row of a deferred pane stays as it is.
unfoldable pub keep_row : ℕ → Option AgentMsg → Map ℕ AgentMsg → Map ℕ AgentMsg
unfolding insert
keep_row pane none next = next
keep_row pane (some row) next = insert pane row next

unfoldable pub keep_deferred : Map ℕ AgentMsg → List ℕ → Map ℕ AgentMsg → Map ℕ AgentMsg
unfolding keep_row lookup
keep_deferred held [] next = next
keep_deferred held (pane ∷ panes) next =
    keep_deferred held panes (keep_row pane (lookup pane held) next)

-- The rows held from then on, and the events that lead to them.
unfoldable pub reconcile : Map ℕ AgentMsg → AgentList → List ℕ → Map ℕ AgentMsg × List AgentEvent
unfolding not_deferred hold_rows changes gone_panes keep_deferred
reconcile held fresh defer =
    let rows = not_deferred defer fresh.agents in
    let next = hold_rows rows [] in
    (keep_deferred held defer next, changes held rows ++ map removed (gone_panes held defer next))

pub record InFlight : Type 0 where
  pub stale : List ℕ
  pub resnapshot : Bool
  pub closed : List ℕ

pub record WatchState : Type 0 where
  pub held : Map ℕ AgentMsg
  pub stale : List ℕ
  pub resnapshot : Bool
  pub last_list : ℕ
  pub reading : Option InFlight
  pub read_failing : Bool
  pub outbox : List AgentEvent

abbrev pub new_watch : Map ℕ AgentMsg → ℕ → WatchState
new_watch held now = record {
  held = held;
  stale = [];
  resnapshot = false;
  last_list = now;
  reading = none;
  read_failing = false;
  outbox = [];
}

abbrev is_nil : List ℕ → Bool
is_nil [] = true
is_nil (n ∷ ns) = false

unfoldable pub reread_wanted : WatchState → Bool
reread_wanted st = not (is_some st.reading) && (st.resnapshot || not (is_nil st.stale))

unfoldable pub start_read : ℕ → WatchState → WatchState
start_read now st = record st {
  last_list = now;
  reading = some (record { stale = st.stale; resnapshot = st.resnapshot; closed = [] });
  stale = [];
  resnapshot = false;
}

-- `BTreeSet::extend`; the order of the set is not read.
unfoldable pub extend : List ℕ → List ℕ → List ℕ
unfolding add contains
extend [] s = s
extend (n ∷ ns) s = extend ns (add n s)

unfoldable pub not_closed : List ℕ → List AgentSnapshot → List AgentSnapshot
unfolding contains
not_closed closed [] = []
not_closed closed (a ∷ rest) =
    let after = not_closed closed rest in if contains a.pane closed then after else a ∷ after

unfoldable pub take_list : Bool → AgentList → WatchState → WatchState
unfolding hold reconcile
take_list true list st = record st { held = hold list; outbox = st.outbox ++ (snapshot list ∷ []) }
take_list false list st =
    let (held, fresh) = reconcile st.held list st.stale in
    record st { held = held; outbox = st.outbox ++ fresh }

-- A read that failed is none: what it was for is owed again.
unfoldable pub finish_read : InFlight → Option (List AgentSnapshot) → WatchState → WatchState
unfolding take_list build_agent_list not_closed extend
finish_read flight (some snapshots) st =
    take_list flight.resnapshot (build_agent_list (not_closed flight.closed snapshots))
      (record st { read_failing = false })
finish_read flight none st = record st {
  read_failing = true;
  stale = extend flight.stale st.stale;
  resnapshot = st.resnapshot || flight.resnapshot;
}

pub data Recv : Type 0 where
  received : MuxEvent → Recv
  lagged : ℕ → Recv
  bus_ended : Recv

unfoldable pub apply_msg : Option AgentMsg → WatchState → WatchState
unfolding insert
apply_msg none st = st
apply_msg (some msg) st = record st {
  held = insert msg.pane_id msg st.held;
  outbox = st.outbox ++ (changed msg ∷ []);
}

unfoldable pub close_in_flight : ℕ → Option InFlight → Option InFlight
unfolding add contains
close_in_flight pane none = none
close_in_flight pane (some flight) = some (record flight { closed = add pane flight.closed })

unfoldable pub drop_row : ℕ → WatchState → WatchState
unfolding remove lookup
drop_row pane st =
    if is_some (lookup pane st.held)
    then record st { held = remove pane st.held; outbox = st.outbox ++ (removed pane ∷ []) }
    else st

-- The state, and whether the bus is still there.
unfoldable pub on_bus : Recv → WatchState → WatchState × Bool
unfolding apply_msg apply_status add contains discard close_in_flight drop_row
on_bus (received (agent_status_changed ev)) st =
    let st' = apply_msg (apply_status st.held ev) st in
    (record st' { stale = add ev.pane st'.stale }, true)
on_bus (received (pane_closed pane)) st = (
  drop_row pane
      (record st { stale = discard pane st.stale; reading = close_in_flight pane st.reading }),
  true,
)
on_bus (received (layout_changed workspace tab)) st = (st, true)
on_bus (received resynced) st = (record st { resnapshot = true }, true)
on_bus (lagged n) st = (record st { resnapshot = true }, true)
on_bus bus_ended st = (st, false)
