-- ===== src/Herdr/Kernel/Run/Sound.antt =====
-- The loop of muxrd/src/multiplexer/herdr/subscribe.rs never meets an `expect` that fails, and its
-- waits stay in range.
use muxr_core.Base.{
  ◌≤◌, ◌≡◌, ◌≢◌, refl, none, some, Option-cases, inl, inr, Bool, true, List, [], ◌∷◌, if_keeps,
  arith,
}
use muxr_core.Herdr.Kernel.Lines.{Json}
use muxr_core.Herdr.Kernel.Backoff.{Tuning, record_grow_and_check_storm}
use muxr_core.Herdr.Kernel.Resync.{Tables}
use muxr_core.Herdr.Kernel.Pump.{
  Conn, Session, Pump, pumping, shutdown, lifecycle_lost, status_lost, widen, pump,
}
use muxr_core.Herdr.Kernel.Connect.{
  Bring, bring_waiting, bring_shutdown, bring_failed, bring_lifecycle_lost, ready, Building,
  open_subscription, connect_status,
}
use muxr_core.Herdr.Kernel.Run.{
  State, Turn, Flow, go_on, next_turn, stopped, waiting, panicked, Drain, draining, drained,
  drain_lost, drain_shutdown, initial, proceed, drop_lifecycle, lifecycle_brought, bring_lifecycle,
  status_brought, build_status, bring_status, storm_wait, after_drain, widened, after_pump,
  pump_both, pump_phase, run_turn, run_tuned, drain_lifecycle, built,
}
use muxr_core.Herdr.Kernel.Run.Good.{
  Ladders, Good, lifecycle_up, both_up, nothing_up, proceed-Good, turn_over-Good,
  back_off_lifecycle-Good, back_off_status-Good, drop_lifecycle-Good, drop_status-Good,
  storm_wait-Good,
}

module _ (json : Json) (tuning : Tuning) (h : tuning.initial_backoff ≤ tuning.max_backoff) where
  lifecycle_brought-Good :
      (turn : Turn) (s : State) (b : Bring)
      → Ladders tuning s
      → Good tuning lifecycle_up (lifecycle_brought json tuning turn s b)
  unfolding lifecycle_brought
  lifecycle_brought-Good turn s bring_waiting v = v
  lifecycle_brought-Good turn s bring_shutdown v = v
  lifecycle_brought-Good turn s bring_lifecycle_lost v =
      back_off_lifecycle-Good json tuning h lifecycle_up none turn s v
  lifecycle_brought-Good turn s bring_failed v =
      back_off_lifecycle-Good json tuning h lifecycle_up none turn s v
  lifecycle_brought-Good turn s (ready c) v =
      (record { lifecycle = v.lifecycle; status = v.status }, refl)

  bring_lifecycle-Good :
      (turn : Turn) (s : State)
      → Ladders tuning s
      → Good tuning lifecycle_up (bring_lifecycle json tuning turn s)
  unfolding bring_lifecycle
  bring_lifecycle-Good turn s v = elim (Option-cases s.lifecycle) [
    | inl e ↦
        rw (e, bring_lifecycle)
          (lifecycle_brought-Good turn s (open_subscription json turn.lifecycle_opening) v)
    | inr (c, e) ↦ rw (e, bring_lifecycle) (v, ground arith)
  ]

  status_brought-Good :
      (turn : Turn) (s : State) (b : Bring)
      → Ladders tuning s
      → lifecycle_up s ≡ true
      → Good tuning both_up (status_brought json tuning turn s b)
  unfolding status_brought
  status_brought-Good turn s bring_waiting v u = v
  status_brought-Good turn s bring_shutdown v u = v
  status_brought-Good turn s bring_lifecycle_lost v u =
      drop_lifecycle-Good json tuning h both_up turn s v
  status_brought-Good turn s bring_failed v u =
      back_off_status-Good json tuning h both_up none turn s v
  status_brought-Good turn s (ready c) v u =
      (record { lifecycle = v.lifecycle; status = v.status }, ground arith)

  build_status-Good :
      (turn : Turn) (s : State) (lc : Conn)
      → Ladders tuning s
      → Good tuning both_up (build_status json tuning turn s lc)
  unfolding build_status
  build_status-Good turn s lc v =
      let b : Building = record {
        tables = s.tables;
        bus = s.bus;
        lifecycle = lc;
        subscribed = s.subscribed;
      } in
      let r = connect_status json turn.enumeration turn.status_opening turn.resync_control b in
      status_brought-Good turn (built s r.0) r.1
        (record { lifecycle = v.lifecycle; status = v.status }) refl

  bring_status-Good :
      (turn : Turn) (s : State)
      → Ladders tuning s
      → lifecycle_up s ≡ true
      → Good tuning both_up (bring_status json tuning turn s)
  unfolding bring_status
  bring_status-Good turn s v u = elim (Option-cases s.lifecycle) [
    | inl e ↦ cc
    | inr (c, e) ↦ elim (Option-cases s.status) [
      | inl k ↦ rw (k, e, bring_status) (build_status-Good turn s c v)
      | inr (d, k) ↦ rw (k, bring_status) (v, ground arith)
    ]
  ]

  after_drain-Good :
      (turn : Turn) (storm : Bool) (d : Drain) (s : State)
      → Ladders tuning s
      → Good tuning nothing_up (after_drain json tuning turn storm d s)
  unfolding after_drain
  after_drain-Good turn storm draining s v = v
  after_drain-Good turn storm drain_shutdown s v = v
  after_drain-Good turn storm drained s v = storm_wait-Good json tuning h nothing_up turn storm s v
  after_drain-Good turn storm drain_lost s v =
      turn_over-Good tuning (drop_lifecycle json tuning turn s)
        (storm_wait json tuning turn storm (drop_lifecycle json tuning turn s).0)
        (drop_lifecycle-Good json tuning h nothing_up turn s v)
        (λ (w : Ladders tuning (drop_lifecycle json tuning turn s).0).
          storm_wait-Good json tuning h nothing_up turn storm (drop_lifecycle json tuning turn s).0
            w)

  widened-Good :
      (turn : Turn) (s : State) (lc : Conn)
      → Ladders tuning s
      → Good tuning nothing_up (widened json tuning turn s lc)
  unfolding widened
  widened-Good turn s lc v =
      let g =
        record_grow_and_check_storm s.grow_history turn.grown_at tuning.grow_storm_window
          tuning.grow_storm_threshold in
      let d = drain_lifecycle turn.drain_ticks lc in
      after_drain-Good turn g.1 d.0
        (record s { status = none; grow_history = g.0; lifecycle = some d.1 })
        (record { lifecycle = v.lifecycle; status = v.status })

  after_pump-Good :
      (turn : Turn) (s : State) (lc : Conn) (p : Pump)
      → Ladders tuning s
      → Good tuning nothing_up (after_pump json tuning turn s lc p)
  unfolding after_pump
  after_pump-Good turn s lc pumping v = v
  after_pump-Good turn s lc shutdown v = v
  after_pump-Good turn s lc lifecycle_lost v = drop_lifecycle-Good json tuning h nothing_up turn s v
  after_pump-Good turn s lc status_lost v = drop_status-Good json tuning h nothing_up turn s v
  after_pump-Good turn s lc widen v = widened-Good turn s lc v

  pump_both-Good :
      (turn : Turn) (s : State) (lc st : Conn)
      → Ladders tuning s
      → Good tuning nothing_up (pump_both json tuning turn s lc st)
  unfolding pump_both
  pump_both-Good turn s lc st v =
      let session : Session = record {
        tables = s.tables;
        bus = s.bus;
        lifecycle = lc;
        status = st;
        subscribed = s.subscribed;
        strikes = s.strikes;
      } in
      let (p, out) = pump json tuning turn.ticks session in
      after_pump-Good turn
        (record s {
          tables = p.tables;
          bus = p.bus;
          lifecycle = some p.lifecycle;
          status = some p.status;
          subscribed = p.subscribed;
          strikes = p.strikes;
        })
        p.lifecycle out (record { lifecycle = v.lifecycle; status = v.status })

  pump_phase-Good :
      (turn : Turn) (s : State)
      → Ladders tuning s
      → both_up s ≡ true
      → Good tuning nothing_up (pump_phase json tuning turn s)
  unfolding pump_phase
  pump_phase-Good turn s v u = elim (Option-cases s.lifecycle) [
    | inl e ↦ cc
    | inr (c, e) ↦ elim (Option-cases s.status) [
      | inl k ↦ cc
      | inr (d, k) ↦ rw (e, k, pump_phase) (pump_both-Good turn s c d v)
    ]
  ]

  run_turn-Good :
      (turn : Turn) (s : State)
      → Ladders tuning s
      → Good tuning nothing_up (run_turn json tuning turn s)
  unfolding run_turn
  run_turn-Good turn s v =
      let a = bring_lifecycle json tuning turn s in
      let b = proceed (bring_status json tuning turn) a in
      if_keeps (Good tuning nothing_up) turn.stop_before (s, stopped)
        (proceed (pump_phase json tuning turn) b) v
        (proceed-Good tuning both_up nothing_up (pump_phase json tuning turn) b
          (proceed-Good tuning lifecycle_up both_up (bring_status json tuning turn) a
            (bring_lifecycle-Good turn s v) (bring_status-Good turn))
          (pump_phase-Good turn))

  run_tuned-Good :
      (turns : List Turn) (s : State)
      → Ladders tuning s
      → Good tuning nothing_up (run_tuned json tuning turns s)
  unfolding run_tuned
  run_tuned-Good [] s v = v
  run_tuned-Good (t ∷ ts) s v =
      turn_over-Good tuning (run_turn json tuning t s)
        (run_tuned json tuning ts (run_turn json tuning t s).0) (run_turn-Good t s v)
        (λ (w : Ladders tuning (run_turn json tuning t s).0).
          run_tuned-Good ts (run_turn json tuning t s).0 w)

Good-Ladders :
    (tuning : Tuning) (r : State × Flow)
    → Good tuning nothing_up r
    → Ladders tuning r.0 × (r.1 ≢ panicked)
Good-Ladders tuning (s, go_on) v = cc
Good-Ladders tuning (s, next_turn) v = (v, λ e. cc)
Good-Ladders tuning (s, stopped) v = (v, λ e. cc)
Good-Ladders tuning (s, waiting) v = (v, λ e. cc)
Good-Ladders tuning (s, panicked) v = elim v [ ]

-- Whatever the streams, the control socket and the shutdown do in its turns, the kernel's loop
-- never reaches an `expect` on a connection that is not there, and both waits lie between the first
-- delay and the cap.
pub run_tuned-Ladders :
    (json : Json) (tuning : Tuning) (tables : Tables) (turns : List Turn)
    → tuning.initial_backoff ≤ tuning.max_backoff
    → let (s, f) = run_tuned json tuning turns (initial tuning tables) in
      Ladders tuning s × (f ≢ panicked)
run_tuned-Ladders json tuning tables turns h =
    Good-Ladders tuning (run_tuned json tuning turns (initial tuning tables)) (
      run_tuned-Good json tuning h turns (initial tuning tables) (record {
        lifecycle = record { above = omega arith; below = h };
        status = record { above = omega arith; below = h };
      }))
