-- ===== src/Herdr/Kernel/Pump.antt =====
-- `pump` of muxrd/src/multiplexer/herdr/subscribe.rs: the loop over the two subscriptions while both
-- are up. What its select yields is a list of ticks with their instants; a list that ends before
-- the loop does stands for a loop that still waits.
pub mod Covered
pub mod Patience
use muxr_core.Base.{
  ℕ, suc, ◌-◌, String, Option, none, some, Bool, true, false, not, ◌&&◌, List, [], ◌∷◌, lookup,
  insert, remove, contains, discard, leb, if◌then◌else◌, nat_key, string_key, trim_end,
}
use muxr_core.Mux.Events.{
  AgentStatusChanged, MuxEvent, agent_status_changed, pane_closed, layout_changed,
}
use muxr_core.Herdr.TabRegistry
use muxr_core.Herdr.LineReader.{Read, line, eof, failed}
use muxr_core.Herdr.Kernel.Backoff.{Tuning}
use muxr_core.Herdr.Kernel.Lines.{
  Json, Pushed, agent_status, pane_created, pane_gone, layout_updated, ignored, classify_pushed,
}
use muxr_core.Herdr.Kernel.Bootstrap.{pane_needs_widening}
use muxr_core.Herdr.Kernel.Resync.{
  Tables, Control, Verdict, healthy, lifecycle_wedged, status_wedged, liveness_probe,
}

pub record Conn : Type 0 where
  pub opened : ℕ
  pub last_event : ℕ

abbrev pub new_conn : ℕ → Conn
new_conn now = record { opened = now; last_event = now }

abbrev pub mark_event : ℕ → Conn → Conn
mark_event now c = record c { last_event = now }

abbrev pub idle_for : ℕ → Conn → ℕ
idle_for now c = now - c.last_event

pub record Strikes : Type 0 where
  pub lifecycle : ℕ
  pub status : ℕ

abbrev pub no_strikes : Strikes
no_strikes = record { lifecycle = 0; status = 0 }

-- What the loop may change. The bus has what was sent, the latest first.
pub record Session : Type 0 where
  pub tables : Tables
  pub bus : List MuxEvent
  pub lifecycle : Conn
  pub status : Conn
  pub subscribed : List String
  pub strikes : Strikes

-- What the select yields; a probe comes with what herdr then answers.
pub data Tick : Type 0 where
  stop : Tick
  on_lifecycle : ℕ → Read → Tick
  on_status : ℕ → Read → Tick
  on_probe : ℕ → Control → Tick

-- How the loop ended, or that it goes on.
pub data Pump : Type 0 where
  pumping : Pump
  shutdown : Pump
  lifecycle_lost : Pump
  status_lost : Pump
  widen : Pump

-- An event without a tab gets the one that its pane was last seen in.
unfoldable pub stamp : Option ℕ → AgentStatusChanged → AgentStatusChanged
stamp known ev = elim ev.tab [ none ↦ record ev { tab = known } | some tab ↦ ev ]

unfoldable pub publish : AgentStatusChanged → Session → Session
unfolding stamp insert lookup
publish ev s = record s {
  tables = record s.tables { last_status = insert ev.pane ev.status s.tables.last_status };
  bus = agent_status_changed (stamp (lookup ev.pane s.tables.pane_tabs) ev) ∷ s.bus;
}

-- The tracking of a pane that has a number, and the closure on the bus.
unfoldable pub forget_number : Option ℕ → Session → Session
unfolding remove
forget_number none s = s
forget_number (some id) s = record s {
  tables = record s.tables {
    last_status = remove id s.tables.last_status;
    pane_tabs = remove id s.tables.pane_tabs;
  };
  bus = pane_closed id ∷ s.bus;
}

unfoldable pub forget_id : Option String → Session → Session
unfolding discard
forget_id none s = s
forget_id (some pane) s = record s { subscribed = discard pane s.subscribed }

unfoldable pub forget_pane : Option String → Option ℕ → Session → Session
unfolding forget_number forget_id
forget_pane herdr_pane_id pane s = forget_id herdr_pane_id (forget_number pane s)

unfoldable pub publish_layout : String → String → Session → Session
publish_layout workspace tab s =
    let (tabs, id) = TabRegistry.assign_or_get s.tables.tabs tab in
    record s { tables = record s.tables { tabs = tabs }; bus = layout_changed workspace id ∷ s.bus }

unfoldable pub on_pushed : Pushed → Session → Session × Pump
unfolding pane_needs_widening forget_pane publish_layout publish
on_pushed (pane_created pane) s =
    (s, if pane_needs_widening pane s.subscribed then widen else pumping)
on_pushed (pane_gone pane id) s = (forget_pane pane id s, pumping)
on_pushed (layout_updated workspace tab) s = (publish_layout workspace tab s, pumping)
on_pushed (agent_status ev) s = (publish ev s, pumping)
on_pushed ignored s = (s, pumping)

unfoldable pub on_status_pushed : Pushed → Session → Session
unfolding publish
on_status_pushed (agent_status ev) s = publish ev s
on_status_pushed (pane_created pane) s = s
on_status_pushed (pane_gone pane id) s = s
on_status_pushed (layout_updated workspace tab) s = s
on_status_pushed ignored s = s

-- What the verdict does to the strikes. A connection that is not idle is not blamed.
unfoldable pub on_verdict : ℕ → Bool → Bool → Session → Verdict → Session × Pump
on_verdict needed lifecycle_idle status_idle s healthy =
    (record s { strikes = no_strikes }, pumping)
on_verdict needed lifecycle_idle status_idle s lifecycle_wedged =
    let n = suc s.strikes.lifecycle in
    if lifecycle_idle
    then (
      record s { strikes = record { lifecycle = n; status = 0 } },
      if leb needed n then lifecycle_lost else pumping,
    )
    else (record s { strikes = no_strikes }, pumping)
on_verdict needed lifecycle_idle status_idle s status_wedged =
    let n = suc s.strikes.status in
    if status_idle
    then (
      record s { strikes = record { lifecycle = 0; status = n } },
      if leb needed n then status_lost else pumping,
    )
    else (record s { strikes = no_strikes }, pumping)

-- An inconclusive probe changes nothing.
unfoldable pub on_probed : ℕ → Bool → Bool → Session → Option Verdict → Session × Pump
unfolding on_verdict
on_probed needed lifecycle_idle status_idle s none = (s, pumping)
on_probed needed lifecycle_idle status_idle s (some v) =
    on_verdict needed lifecycle_idle status_idle s v

-- The rest of the loop, unless the tick ended it.
unfoldable pub carry_on : Session × Pump → Session × Pump → Session × Pump
carry_on (s, pumping) rest = rest
carry_on (s, shutdown) rest = (s, shutdown)
carry_on (s, lifecycle_lost) rest = (s, lifecycle_lost)
carry_on (s, status_lost) rest = (s, status_lost)
carry_on (s, widen) rest = (s, widen)

module _ (json : Json) (tuning : Tuning) where
  unfoldable pub pump_probe : ℕ → Control → Session → Session × Pump
  unfolding on_probed liveness_probe
  pump_probe now control s =
      let lifecycle_idle = leb tuning.probe_interval (idle_for now s.lifecycle) in
      let status_idle = leb tuning.probe_interval (idle_for now s.status) in
      if not lifecycle_idle && not status_idle
      then (record s { strikes = no_strikes }, pumping)
      else on_probed tuning.probe_strikes lifecycle_idle status_idle s
          (liveness_probe control s.tables s.subscribed)

  unfoldable pub lifecycle_line : ℕ → String → Session → Session × Pump
  unfolding classify_pushed on_pushed trim_end
  lifecycle_line now l s =
      let (panes, pushed) = classify_pushed json (trim_end l) s.tables.panes in
      on_pushed pushed (record s {
        lifecycle = mark_event now s.lifecycle;
        tables = record s.tables { panes = panes };
      })

  unfoldable pub status_line : ℕ → String → Session → Session
  unfolding classify_pushed on_status_pushed trim_end
  status_line now l s =
      let (panes, pushed) = classify_pushed json (trim_end l) s.tables.panes in
      on_status_pushed pushed
        (record s { status = mark_event now s.status; tables = record s.tables { panes = panes } })

  unfoldable pub pump_tick : Tick → Session → Session × Pump
  unfolding lifecycle_line status_line pump_probe
  pump_tick stop s = (s, shutdown)
  pump_tick (on_lifecycle now eof) s = (s, lifecycle_lost)
  pump_tick (on_lifecycle now failed) s = (s, lifecycle_lost)
  pump_tick (on_lifecycle now (line l)) s = lifecycle_line now l s
  pump_tick (on_status now eof) s = (s, status_lost)
  pump_tick (on_status now failed) s = (s, status_lost)
  pump_tick (on_status now (line l)) s = (status_line now l s, pumping)
  pump_tick (on_probe now control) s = pump_probe now control s

  unfoldable pub pump : List Tick → Session → Session × Pump
  unfolding pump_tick carry_on
  pump [] s = (s, pumping)
  pump (t ∷ ts) s = carry_on (pump_tick t s) (pump ts (pump_tick t s).0)
