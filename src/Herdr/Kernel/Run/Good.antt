-- ===== src/Herdr/Kernel/Run/Good.antt =====
-- A step of a turn of the loop of muxrd/src/multiplexer/herdr/subscribe.rs that goes well.
use muxr_core.Base.{ℕ, ◌≤◌, ◌≡◌, Option, none, Bool, true, false, if◌then◌else◌, if_keeps, is_some}
use muxr_core.Herdr.Kernel.Lines.{Json}
use muxr_core.Herdr.Kernel.Backoff.{
  Tuning, InRange, back_off_after, next_backoff, back_off_after-InRange, next_backoff-InRange,
}
use muxr_core.Herdr.Kernel.Run.{
  State, Turn, Flow, go_on, next_turn, stopped, waiting, panicked, proceed, back_off_lifecycle,
  back_off_status, drop_lifecycle, drop_status, storm_wait, turn_over, opened_at,
}

-- The waits are in range.
pub record Ladders (tuning : Tuning) (s : State) : Type 0 where
  pub lifecycle : InRange tuning s.lifecycle_backoff
  pub status : InRange tuning s.status_backoff

-- The turn does not panic, the waits are in range, and where it goes on, what `up` tests is up.
abbrev pub Good : Tuning → (State → Bool) → State × Flow → Type 0
Good tuning up (s, go_on) = Ladders tuning s × (up s ≡ true)
Good tuning up (s, next_turn) = Ladders tuning s
Good tuning up (s, stopped) = Ladders tuning s
Good tuning up (s, waiting) = Ladders tuning s
Good tuning up (s, panicked) = ⊥

abbrev pub lifecycle_up : State → Bool
lifecycle_up s = is_some s.lifecycle

abbrev pub both_up : State → Bool
both_up s = if is_some s.lifecycle then is_some s.status else false

abbrev pub nothing_up : State → Bool
nothing_up s = false

pub proceed-Good :
    (tuning : Tuning) (up up' : State → Bool) (f : State → State × Flow) (r : State × Flow)
    → Good tuning up r
    → ((s : State) → Ladders tuning s → up s ≡ true → Good tuning up' (f s))
    → Good tuning up' (proceed f r)
unfolding proceed
proceed-Good tuning up up' f (s, go_on) v k = k s v.0 v.1
proceed-Good tuning up up' f (s, next_turn) v k = v
proceed-Good tuning up up' f (s, stopped) v k = v
proceed-Good tuning up up' f (s, waiting) v k = v
proceed-Good tuning up up' f (s, panicked) v k = elim v [ ]

pub ended-Good :
    (tuning : Tuning) (up : State → Bool) (over : Bool) (s : State)
    → Ladders tuning s
    → Good tuning up (s, if over then stopped else next_turn)
ended-Good tuning up true s v = v
ended-Good tuning up false s v = v

pub turn_over-Good :
    (tuning : Tuning) (r rest : State × Flow)
    → Good tuning nothing_up r
    → (Ladders tuning r.0 → Good tuning nothing_up rest)
    → Good tuning nothing_up (turn_over r rest)
unfolding turn_over
turn_over-Good tuning (s, go_on) rest v k = cc
turn_over-Good tuning (s, next_turn) rest v k = k v
turn_over-Good tuning (s, stopped) rest v k = v
turn_over-Good tuning (s, waiting) rest v k = v
turn_over-Good tuning (s, panicked) rest v k = elim v [ ]

module _ (json : Json) (tuning : Tuning) (h : tuning.initial_backoff ≤ tuning.max_backoff)
    (up : State → Bool) where
  pub back_off_lifecycle-Good :
      (opened : Option ℕ) (turn : Turn) (s : State)
      → Ladders tuning s
      → Good tuning up (back_off_lifecycle json tuning opened turn s)
  unfolding back_off_lifecycle
  back_off_lifecycle-Good opened turn s v =
      let r = back_off_after tuning opened turn.lost_at turn.stop_in_sleep s.lifecycle_backoff in
      ended-Good tuning up r.1 (record s { lifecycle_backoff = r.0 })
        (record {
          lifecycle =
              back_off_after-InRange tuning opened turn.lost_at turn.stop_in_sleep
                s.lifecycle_backoff h v.lifecycle;
          status = v.status;
        })

  pub back_off_status-Good :
      (opened : Option ℕ) (turn : Turn) (s : State)
      → Ladders tuning s
      → Good tuning up (back_off_status json tuning opened turn s)
  unfolding back_off_status
  back_off_status-Good opened turn s v =
      let r = back_off_after tuning opened turn.lost_at turn.stop_in_sleep s.status_backoff in
      ended-Good tuning up r.1 (record s { status_backoff = r.0 })
        (record {
          lifecycle = v.lifecycle;
          status =
              back_off_after-InRange tuning opened turn.lost_at turn.stop_in_sleep s.status_backoff
                h v.status;
        })

  pub drop_lifecycle-Good :
      (turn : Turn) (s : State)
      → Ladders tuning s
      → Good tuning up (drop_lifecycle json tuning turn s)
  unfolding drop_lifecycle
  drop_lifecycle-Good turn s v =
      back_off_lifecycle-Good (opened_at s.lifecycle) turn (record s { lifecycle = none })
        (record { lifecycle = v.lifecycle; status = v.status })

  pub drop_status-Good :
      (turn : Turn) (s : State) → Ladders tuning s → Good tuning up (drop_status json tuning turn s)
  unfolding drop_status
  drop_status-Good turn s v =
      back_off_status-Good (opened_at s.status) turn (record s { status = none })
        (record { lifecycle = v.lifecycle; status = v.status })

  pub storm_wait-Good :
      (turn : Turn) (storm : Bool) (s : State)
      → Ladders tuning s
      → Good tuning up (storm_wait json tuning turn storm s)
  unfolding storm_wait
  storm_wait-Good turn false s v = v
  storm_wait-Good turn true s v =
      if_keeps (Good tuning up) turn.stop_in_storm (s, stopped)
        (record s { status_backoff = next_backoff s.status_backoff tuning.max_backoff }, next_turn)
        v
        (record {
          lifecycle = v.lifecycle;
          status = next_backoff-InRange tuning s.status_backoff v.status;
        })
