-- ===== src/Herdr/Kernel/Run.antt =====
-- `run_tuned` of muxrd/src/multiplexer/herdr/subscribe.rs: the loop that keeps both subscriptions up.
-- A turn of the loop has what its selects yield, what its attempts meet and what its sleeps end with;
-- the loop runs over a list of turns.
pub mod Good
pub mod Sound
use muxr_core.Base.{ℕ, String, Option, none, some, Bool, true, false, List, [], ◌∷◌, if◌then◌else◌}
use muxr_core.Mux.Events.{MuxEvent}
use muxr_core.Herdr.LineReader.{Read, line, eof, failed}
use muxr_core.Herdr.Kernel.Lines.{Json}
use muxr_core.Herdr.Kernel.Backoff.{
  Tuning, back_off_after, next_backoff, record_grow_and_check_storm,
}
use muxr_core.Herdr.Kernel.Resync.{Control, Tables}
use muxr_core.Herdr.Kernel.Pump.{
  Conn, mark_event, Strikes, no_strikes, Session, Tick, Pump, pumping, shutdown, lifecycle_lost,
  status_lost, widen, pump,
}
use muxr_core.Herdr.Kernel.Connect.{
  Bring, bring_waiting, bring_shutdown, bring_failed, bring_lifecycle_lost, ready, Opening,
  EnumTick, Building, open_subscription, connect_status,
}

pub record State : Type 0 where
  pub tables : Tables
  pub bus : List MuxEvent
  pub lifecycle : Option Conn
  pub status : Option Conn
  pub subscribed : List String
  pub lifecycle_backoff : ℕ
  pub status_backoff : ℕ
  pub grow_history : List ℕ
  pub strikes : Strikes

pub data DrainTick : Type 0 where
  drain_stop : DrainTick
  drain_over : DrainTick
  drain_line : ℕ → Read → DrainTick

pub data Drain : Type 0 where
  draining : Drain
  drained : Drain
  drain_lost : Drain
  drain_shutdown : Drain

-- Where the loop stands: in the turn, at its end, behind a break, in a select that still waits, or
-- past an `expect` that failed.
pub data Flow : Type 0 where
  go_on : Flow
  next_turn : Flow
  stopped : Flow
  waiting : Flow
  panicked : Flow

pub record Turn : Type 0 where
  pub stop_before : Bool
  pub lifecycle_opening : Opening
  pub enumeration : List EnumTick
  pub status_opening : Opening
  pub resync_control : Control
  pub ticks : List Tick
  pub lost_at : ℕ
  pub stop_in_sleep : Bool
  pub grown_at : ℕ
  pub drain_ticks : List DrainTick
  pub stop_in_storm : Bool

abbrev pub initial : Tuning → Tables → State
initial tuning tables = record {
  tables = tables;
  bus = [];
  lifecycle = none;
  status = none;
  subscribed = [];
  lifecycle_backoff = tuning.initial_backoff;
  status_backoff = tuning.initial_backoff;
  grow_history = [];
  strikes = no_strikes;
}

-- `Option::map` to the instant at which a connection came up.
abbrev pub opened_at : Option Conn → Option ℕ
opened_at none = none
opened_at (some c) = some c.opened

unfoldable pub drain_lifecycle : List DrainTick → Conn → Drain × Conn
drain_lifecycle [] c = (draining, c)
drain_lifecycle (drain_stop ∷ ts) c = (drain_shutdown, c)
drain_lifecycle (drain_over ∷ ts) c = (drained, c)
drain_lifecycle (drain_line now eof ∷ ts) c = (drain_lost, c)
drain_lifecycle (drain_line now failed ∷ ts) c = (drain_lost, c)
drain_lifecycle (drain_line now (line l) ∷ ts) c = drain_lifecycle ts (mark_event now c)

-- A part of the turn that runs only when the parts before it went on.
unfoldable pub proceed : (State → State × Flow) → State × Flow → State × Flow
proceed f (s, go_on) = f s
proceed f (s, next_turn) = (s, next_turn)
proceed f (s, stopped) = (s, stopped)
proceed f (s, waiting) = (s, waiting)
proceed f (s, panicked) = (s, panicked)

-- What the attempt left, put back.
abbrev pub built : State → Building → State
built s b = record s {
  tables = b.tables;
  bus = b.bus;
  lifecycle = some b.lifecycle;
  subscribed = b.subscribed;
}

-- The turns, until one does not end with the next.
unfoldable pub turn_over : State × Flow → State × Flow → State × Flow
turn_over (s, next_turn) rest = rest
turn_over (s, go_on) rest = (s, go_on)
turn_over (s, stopped) rest = (s, stopped)
turn_over (s, waiting) rest = (s, waiting)
turn_over (s, panicked) rest = (s, panicked)

module _ (json : Json) (tuning : Tuning) where
  unfoldable pub back_off_lifecycle : Option ℕ → Turn → State → State × Flow
  unfolding back_off_after
  back_off_lifecycle opened turn s =
      let (wait, over) =
        back_off_after tuning opened turn.lost_at turn.stop_in_sleep s.lifecycle_backoff in
      (record s { lifecycle_backoff = wait }, if over then stopped else next_turn)

  unfoldable pub back_off_status : Option ℕ → Turn → State → State × Flow
  unfolding back_off_after
  back_off_status opened turn s =
      let (wait, over) =
        back_off_after tuning opened turn.lost_at turn.stop_in_sleep s.status_backoff in
      (record s { status_backoff = wait }, if over then stopped else next_turn)

  -- The lifecycle connection is gone.
  unfoldable pub drop_lifecycle : Turn → State → State × Flow
  unfolding back_off_lifecycle
  drop_lifecycle turn s =
      back_off_lifecycle (opened_at s.lifecycle) turn (record s { lifecycle = none })

  unfoldable pub drop_status : Turn → State → State × Flow
  unfolding back_off_status
  drop_status turn s = back_off_status (opened_at s.status) turn (record s { status = none })

  -- A fresh lifecycle connection always means a fresh status connection.
  unfoldable pub lifecycle_brought : Turn → State → Bring → State × Flow
  unfolding back_off_lifecycle
  lifecycle_brought turn s bring_waiting = (s, waiting)
  lifecycle_brought turn s bring_shutdown = (s, stopped)
  lifecycle_brought turn s bring_lifecycle_lost = back_off_lifecycle none turn s
  lifecycle_brought turn s bring_failed = back_off_lifecycle none turn s
  lifecycle_brought turn s (ready c) =
      (record s { lifecycle = some c; status = none; subscribed = []; strikes = no_strikes }, go_on)

  unfoldable pub bring_lifecycle : Turn → State → State × Flow
  unfolding lifecycle_brought open_subscription
  bring_lifecycle turn s = elim s.lifecycle [
    | some c ↦ (s, go_on)
    | none ↦ lifecycle_brought turn s (open_subscription json turn.lifecycle_opening)
  ]

  unfoldable pub status_brought : Turn → State → Bring → State × Flow
  unfolding drop_lifecycle back_off_status
  status_brought turn s bring_waiting = (s, waiting)
  status_brought turn s bring_shutdown = (s, stopped)
  status_brought turn s bring_lifecycle_lost = drop_lifecycle turn s
  status_brought turn s bring_failed = back_off_status none turn s
  status_brought turn s (ready c) = (record s { status = some c; strikes = no_strikes }, go_on)

  unfoldable pub build_status : Turn → State → Conn → State × Flow
  unfolding connect_status status_brought
  build_status turn s lc =
      let b : Building = record {
        tables = s.tables;
        bus = s.bus;
        lifecycle = lc;
        subscribed = s.subscribed;
      } in
      let (b', result) =
        connect_status json turn.enumeration turn.status_opening turn.resync_control b in
      status_brought turn (built s b') result

  -- The `expect` on the lifecycle connection is written out.
  unfoldable pub bring_status : Turn → State → State × Flow
  unfolding build_status
  bring_status turn s = elim s.status [
    | some c ↦ (s, go_on)
    | none ↦ elim s.lifecycle [ none ↦ (s, panicked) | some lc ↦ build_status turn s lc ]
  ]

  -- A storm waits on the ladder of the status connection.
  unfoldable pub storm_wait : Turn → Bool → State → State × Flow
  unfolding next_backoff
  storm_wait turn false s = (s, next_turn)
  storm_wait turn true s = if turn.stop_in_storm then (s, stopped) else (
    record s { status_backoff = next_backoff s.status_backoff tuning.max_backoff },
    next_turn,
  )

  -- After the drain; a lifecycle connection that was lost meanwhile waits first.
  unfoldable pub after_drain : Turn → Bool → Drain → State → State × Flow
  unfolding storm_wait drop_lifecycle turn_over
  after_drain turn storm draining s = (s, waiting)
  after_drain turn storm drain_shutdown s = (s, stopped)
  after_drain turn storm drained s = storm_wait turn storm s
  after_drain turn storm drain_lost s =
      turn_over (drop_lifecycle turn s) (storm_wait turn storm (drop_lifecycle turn s).0)

  unfoldable pub widened : Turn → State → Conn → State × Flow
  unfolding drain_lifecycle after_drain record_grow_and_check_storm
  widened turn s lc =
      let (history, storm) =
        record_grow_and_check_storm s.grow_history turn.grown_at tuning.grow_storm_window
          tuning.grow_storm_threshold in
      let (out, lc') = drain_lifecycle turn.drain_ticks lc in
      after_drain turn storm out
        (record s { status = none; grow_history = history; lifecycle = some lc' })

  unfoldable pub after_pump : Turn → State → Conn → Pump → State × Flow
  unfolding drop_lifecycle drop_status widened
  after_pump turn s lc pumping = (s, waiting)
  after_pump turn s lc shutdown = (s, stopped)
  after_pump turn s lc lifecycle_lost = drop_lifecycle turn s
  after_pump turn s lc status_lost = drop_status turn s
  after_pump turn s lc widen = widened turn s lc

  unfoldable pub pump_both : Turn → State → Conn → Conn → State × Flow
  unfolding pump after_pump
  pump_both turn s lc st =
      let session : Session = record {
        tables = s.tables;
        bus = s.bus;
        lifecycle = lc;
        status = st;
        subscribed = s.subscribed;
        strikes = s.strikes;
      } in
      let (p, out) = pump json tuning turn.ticks session in
      after_pump turn
        (record s {
          tables = p.tables;
          bus = p.bus;
          lifecycle = some p.lifecycle;
          status = some p.status;
          subscribed = p.subscribed;
          strikes = p.strikes;
        })
        p.lifecycle out

  unfoldable pub pump_phase : Turn → State → State × Flow
  unfolding pump_both
  pump_phase turn s = elim s.lifecycle [
    | none ↦ (s, panicked)
    | some lc ↦ elim s.status [ none ↦ (s, panicked) | some st ↦ pump_both turn s lc st ]
  ]

  -- One turn of the loop.
  unfoldable pub run_turn : Turn → State → State × Flow
  unfolding bring_lifecycle bring_status pump_phase proceed
  run_turn turn s =
      if turn.stop_before
      then (s, stopped)
      else proceed (pump_phase turn) (proceed (bring_status turn) (bring_lifecycle turn s))

  unfoldable pub run_tuned : List Turn → State → State × Flow
  unfolding run_turn turn_over
  run_tuned [] s = (s, next_turn)
  run_tuned (t ∷ ts) s = turn_over (run_turn t s) (run_tuned ts (run_turn t s).0)
