-- ===== src/Herdr/Kernel/Backoff.antt =====
-- Waiting before a reconnect, and the count of widenings, in
-- muxrd/src/multiplexer/herdr/subscribe.rs. Instants and durations are nanoseconds.
use muxr_core.Base.{
  ℕ, ◌+◌, ◌-◌, ◌*◌, ◌≤◌, min, Option, none, some, Bool, true, false, List, [], ◌∷◌, ◌++◌, length,
  ltb, leb, if◌then◌else◌, arith,
}

abbrev pub seconds : ℕ → ℕ
seconds n = n * 1000000000

abbrev pub initial_backoff_time : ℕ
initial_backoff_time = seconds 1

abbrev pub max_backoff_time : ℕ
max_backoff_time = seconds 60

abbrev pub stable_time : ℕ
stable_time = seconds 60

abbrev pub ack_time : ℕ
ack_time = seconds 10

abbrev pub grow_coalesce_time : ℕ
grow_coalesce_time = 250000000

abbrev pub grow_storm_time : ℕ
grow_storm_time = seconds 30

abbrev pub grow_storm_count : ℕ
grow_storm_count = 8

abbrev pub liveness_probe_time : ℕ
liveness_probe_time = seconds 60

abbrev pub liveness_strikes : ℕ
liveness_strikes = 2

pub record Tuning : Type 0 where
  pub initial_backoff : ℕ
  pub max_backoff : ℕ
  pub stable_threshold : ℕ
  pub ack_timeout : ℕ
  pub grow_coalesce_window : ℕ
  pub grow_storm_window : ℕ
  pub grow_storm_threshold : ℕ
  pub probe_interval : ℕ
  pub probe_strikes : ℕ

abbrev pub default_tuning : Tuning
default_tuning = record {
  initial_backoff = initial_backoff_time;
  max_backoff = max_backoff_time;
  stable_threshold = stable_time;
  ack_timeout = ack_time;
  grow_coalesce_window = grow_coalesce_time;
  grow_storm_window = grow_storm_time;
  grow_storm_threshold = grow_storm_count;
  probe_interval = liveness_probe_time;
  probe_strikes = liveness_strikes;
}

unfoldable pub next_backoff : ℕ → ℕ → ℕ
next_backoff prev limit = min (prev * 2) limit

-- A connection that was up long enough resets the wait.
unfoldable pub reset_backoff : Tuning → Option ℕ → ℕ → ℕ → ℕ
reset_backoff tuning none now backoff = backoff
reset_backoff tuning (some opened) now backoff =
    if leb tuning.stable_threshold (now - opened) then tuning.initial_backoff else backoff

-- The wait after this one, and whether the shutdown ended the sleep.
unfoldable pub back_off_after : Tuning → Option ℕ → ℕ → Bool → ℕ → ℕ × Bool
unfolding reset_backoff next_backoff
back_off_after tuning opened now interrupted backoff =
    let wait = reset_backoff tuning opened now backoff in
    if interrupted then (wait, true) else (next_backoff wait tuning.max_backoff, false)

-- The instants that are within the window.
unfoldable pub prune_before : ℕ → ℕ → List ℕ → List ℕ
prune_before now window [] = []
prune_before now window (t ∷ ts) =
    let rest = prune_before now window ts in if ltb (now - t) window then t ∷ rest else rest

unfoldable pub record_grow_and_check_storm : List ℕ → ℕ → ℕ → ℕ → List ℕ × Bool
unfolding prune_before
record_grow_and_check_storm history now window threshold =
    let recent = prune_before now window history ++ (now ∷ []) in
    (recent, ltb threshold (length recent))

-- The wait lies between the first delay and the cap.
pub record InRange (tuning : Tuning) (backoff : ℕ) : Type 0 where
  pub above : tuning.initial_backoff ≤ backoff
  pub below : backoff ≤ tuning.max_backoff

pub back_off_after-InRange :
    (tuning : Tuning) (opened : Option ℕ) (now : ℕ) (interrupted : Bool) (backoff : ℕ)
    → tuning.initial_backoff ≤ tuning.max_backoff
    → InRange tuning backoff
    → InRange tuning (back_off_after tuning opened now interrupted backoff).0
unfolding back_off_after reset_backoff next_backoff
back_off_after-InRange tuning none now interrupted backoff h v = record {
  above = ground (arith, v.above, v.below);
  below = ground (arith, v.above, v.below);
}
back_off_after-InRange tuning (some opened) now interrupted backoff h v = record {
  above = ground (arith, v.above, v.below);
  below = ground (arith, v.above, v.below);
}

pub next_backoff-InRange :
    (tuning : Tuning) (backoff : ℕ)
    → InRange tuning backoff
    → InRange tuning (next_backoff backoff tuning.max_backoff)
unfolding next_backoff
next_backoff-InRange tuning backoff v = record {
  above = ground (arith, v.above, v.below);
  below = ground (arith, v.above, v.below);
}

-- How many of the instants lie within the window.
unfoldable pub recent : ℕ → ℕ → List ℕ → ℕ
recent now window [] = 0
recent now window (t ∷ ts) = (if ltb (now - t) window then 1 else 0) + recent now window ts
