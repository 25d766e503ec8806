-- ===== src/Herdr/Kernel/Pump/Patience.antt =====
-- The liveness probe of muxrd/src/multiplexer/herdr/subscribe.rs gives up a connection only after
-- enough verdicts against it.
use muxr_core.Base.{
  ℕ, suc, ◌+◌, ◌≤◌, ◌<◌, ◌≡◌, refl, none, some, Option, Bool, true, false, ◌&&◌, List, [], ◌∷◌, leb,
  if_keeps, not, if◌then◌else◌, arith, trim_end,
}
use muxr_core.Herdr.LineReader.{Read, line, eof, failed}
use muxr_core.Herdr.Kernel.Backoff.{Tuning}
use muxr_core.Herdr.Kernel.Lines.{
  Json, Pushed, agent_status, pane_created, pane_gone, layout_updated, ignored, classify_pushed,
}
use muxr_core.Herdr.Kernel.Bootstrap.{pane_needs_widening}
use muxr_core.Herdr.Kernel.Resync.{
  Verdict, healthy, lifecycle_wedged, status_wedged, liveness_probe,
}
use muxr_core.Herdr.Kernel.Pump.{
  Session, Tick, stop, on_lifecycle, on_status, on_probe, Pump, pumping, shutdown, lifecycle_lost,
  status_lost, widen, pump_tick, pump, on_pushed, on_status_pushed, lifecycle_line, status_line,
  pump_probe, on_verdict, on_probed, forget_pane, forget_number, forget_id, publish_layout, publish,
  carry_on, idle_for, mark_event, no_strikes,
}

-- How many probes the ticks have.
unfoldable pub probes : List Tick → ℕ
probes [] = 0
probes (on_probe now c ∷ ts) = suc (probes ts)
probes (on_lifecycle now r ∷ ts) = probes ts
probes (on_status now r ∷ ts) = probes ts
probes (stop ∷ ts) = probes ts

unfoldable pub is_line : Read → Bool
is_line (line l) = true
is_line eof = false
is_line failed = false

-- No stream ends or breaks.
unfoldable pub streaming : List Tick → Bool
unfolding is_line
streaming [] = true
streaming (on_probe now c ∷ ts) = streaming ts
streaming (on_lifecycle now r ∷ ts) = is_line r && streaming ts
streaming (on_status now r ∷ ts) = is_line r && streaming ts
streaming (stop ∷ ts) = streaming ts

unfoldable pub lost : Pump → Bool
lost lifecycle_lost = true
lost status_lost = true
lost pumping = false
lost shutdown = false
lost widen = false

-- The strikes grew by at most `n`, and no connection is lost.
record Patient (n : ℕ) (s : Session) (r : Session × Pump) : Type 0 where
  lifecycle : r.0.strikes.lifecycle ≤ s.strikes.lifecycle + n
  status : r.0.strikes.status ≤ s.strikes.status + n
  kept : lost r.1 ≡ false

widen_or-kept : (b : Bool) → lost (if b then widen else pumping) ≡ false
unfolding lost
widen_or-kept true = refl
widen_or-kept false = refl

lost_or-kept : (b : Bool) (p : Pump) → b ≡ false → lost (if b then p else pumping) ≡ false
unfolding lost
lost_or-kept true p h = cc
lost_or-kept false p h = refl

on_pushed-Patient : (p : Pushed) (s : Session) → Patient 0 s (on_pushed p s)
unfolding on_pushed lost forget_pane forget_number forget_id publish_layout publish
on_pushed-Patient (pane_created q) s = record {
  lifecycle = omega arith;
  status = omega arith;
  kept = widen_or-kept (pane_needs_widening q s.subscribed);
}
on_pushed-Patient (pane_gone none none) s = record {
  lifecycle = omega arith;
  status = omega arith;
  kept = refl;
}
on_pushed-Patient (pane_gone none (some i)) s = record {
  lifecycle = omega arith;
  status = omega arith;
  kept = refl;
}
on_pushed-Patient (pane_gone (some q) none) s = record {
  lifecycle = omega arith;
  status = omega arith;
  kept = refl;
}
on_pushed-Patient (pane_gone (some q) (some i)) s = record {
  lifecycle = omega arith;
  status = omega arith;
  kept = refl;
}
on_pushed-Patient (agent_status ev) s = record {
  lifecycle = omega arith;
  status = omega arith;
  kept = refl;
}
on_pushed-Patient (layout_updated w t) s = record {
  lifecycle = omega arith;
  status = omega arith;
  kept = refl;
}
on_pushed-Patient ignored s = record { lifecycle = omega arith; status = omega arith; kept = refl }

on_status_pushed-Patient : (p : Pushed) (s : Session) → Patient 0 s (on_status_pushed p s, pumping)
unfolding on_status_pushed lost publish
on_status_pushed-Patient (pane_created q) s = record {
  lifecycle = omega arith;
  status = omega arith;
  kept = refl;
}
on_status_pushed-Patient (pane_gone q i) s = record {
  lifecycle = omega arith;
  status = omega arith;
  kept = refl;
}
on_status_pushed-Patient (agent_status ev) s = record {
  lifecycle = omega arith;
  status = omega arith;
  kept = refl;
}
on_status_pushed-Patient (layout_updated w t) s = record {
  lifecycle = omega arith;
  status = omega arith;
  kept = refl;
}
on_status_pushed-Patient ignored s = record {
  lifecycle = omega arith;
  status = omega arith;
  kept = refl;
}

on_verdict-Patient :
    (needed : ℕ) (a b : Bool) (s : Session) (v : Verdict)
    → suc s.strikes.lifecycle < needed
    → suc s.strikes.status < needed
    → Patient 1 s (on_verdict needed a b s v)
unfolding on_verdict lost
on_verdict-Patient needed a b s healthy h k = record {
  lifecycle = omega arith;
  status = omega arith;
  kept = refl;
}
on_verdict-Patient needed true b s lifecycle_wedged h k = record {
  lifecycle = omega arith;
  status = omega arith;
  kept = lost_or-kept (leb needed (suc s.strikes.lifecycle)) lifecycle_lost (ground arith);
}
on_verdict-Patient needed false b s lifecycle_wedged h k = record {
  lifecycle = omega arith;
  status = omega arith;
  kept = refl;
}
on_verdict-Patient needed a true s status_wedged h k = record {
  lifecycle = omega arith;
  status = omega arith;
  kept = lost_or-kept (leb needed (suc s.strikes.status)) status_lost (ground arith);
}
on_verdict-Patient needed a false s status_wedged h k = record {
  lifecycle = omega arith;
  status = omega arith;
  kept = refl;
}

on_probed-Patient :
    (needed : ℕ) (a b : Bool) (s : Session) (v : Option Verdict)
    → suc s.strikes.lifecycle < needed
    → suc s.strikes.status < needed
    → Patient 1 s (on_probed needed a b s v)
unfolding on_probed lost
on_probed-Patient needed a b s none h k = record {
  lifecycle = omega arith;
  status = omega arith;
  kept = refl;
}
on_probed-Patient needed a b s (some v) h k = on_verdict-Patient needed a b s v h k

carry_on-kept :
    (r rest : Session × Pump)
    → lost r.1 ≡ false
    → lost rest.1 ≡ false
    → lost (carry_on r rest).1 ≡ false
unfolding carry_on lost
carry_on-kept (s, pumping) rest h k = k
carry_on-kept (s, shutdown) rest h k = refl
carry_on-kept (s, lifecycle_lost) rest h k = cc
carry_on-kept (s, status_lost) rest h k = cc
carry_on-kept (s, widen) rest h k = refl

probes-cons : (t : Tick) (ts : List Tick) → probes (t ∷ ts) ≡ probes (t ∷ []) + probes ts
unfolding probes
probes-cons stop ts = omega arith
probes-cons (on_lifecycle now r) ts = omega arith
probes-cons (on_status now r) ts = omega arith
probes-cons (on_probe now c) ts = omega arith

streaming-cons :
    (t : Tick) (ts : List Tick)
    → streaming (t ∷ ts) ≡ true
    → (streaming (t ∷ []) ≡ true) × (streaming ts ≡ true)
unfolding streaming
streaming-cons stop ts h = (refl, h)
streaming-cons (on_lifecycle now r) ts h = ground arith
streaming-cons (on_status now r) ts h = ground arith
streaming-cons (on_probe now c) ts h = (refl, h)

module _ (json : Json) (tuning : Tuning) where
  pump_tick-Patient :
      (t : Tick) (s : Session)
      → streaming (t ∷ []) ≡ true
      → s.strikes.lifecycle + probes (t ∷ []) < tuning.probe_strikes
      → s.strikes.status + probes (t ∷ []) < tuning.probe_strikes
      → Patient (probes (t ∷ [])) s (pump_tick json tuning t s)
  unfolding pump_tick streaming is_line probes lifecycle_line status_line pump_probe lost
  pump_tick-Patient stop s w h k = record {
    lifecycle = omega arith;
    status = omega arith;
    kept = refl;
  }
  pump_tick-Patient (on_lifecycle now eof) s w h k = cc
  pump_tick-Patient (on_lifecycle now failed) s w h k = cc
  pump_tick-Patient (on_lifecycle now (line l)) s w h k =
      let (panes, p) = classify_pushed json (trim_end l) s.tables.panes in
      let v = on_pushed-Patient p (record s {
        lifecycle = mark_event now s.lifecycle;
        tables = record s.tables { panes = panes };
      }) in
      record { lifecycle = v.lifecycle; status = v.status; kept = v.kept }
  pump_tick-Patient (on_status now eof) s w h k = cc
  pump_tick-Patient (on_status now failed) s w h k = cc
  pump_tick-Patient (on_status now (line l)) s w h k =
      let (panes, p) = classify_pushed json (trim_end l) s.tables.panes in
      let v = on_status_pushed-Patient p (record s {
        status = mark_event now s.status;
        tables = record s.tables { panes = panes };
      }) in
      record { lifecycle = v.lifecycle; status = v.status; kept = v.kept }
  pump_tick-Patient (on_probe now control) s w h k =
      let a = leb tuning.probe_interval (idle_for now s.lifecycle) in
      let b = leb tuning.probe_interval (idle_for now s.status) in
      if_keeps (Patient 1 s) (not a && not b) (record s { strikes = no_strikes }, pumping)
        (on_probed tuning.probe_strikes a b s (liveness_probe control s.tables s.subscribed))
        (record { lifecycle = omega arith; status = omega arith; kept = refl })
        (on_probed-Patient tuning.probe_strikes a b s (liveness_probe control s.tables s.subscribed)
          (omega (arith, h)) (omega (arith, k)))

  -- While both streams deliver, fewer probes than the tuning's number of strikes, counted with the
  -- strikes there were, never give up a connection, whatever herdr answers them.
  pub pump-patient :
      (ts : List Tick) (s : Session)
      → streaming ts ≡ true
      → s.strikes.lifecycle + probes ts < tuning.probe_strikes
      → s.strikes.status + probes ts < tuning.probe_strikes
      → lost (pump json tuning ts s).1 ≡ false
  unfolding pump lost
  pump-patient [] s w h k = refl
  pump-patient (t ∷ ts) s w h k =
      let r = pump_tick json tuning t s in
      let u = streaming-cons t ts w in
      let c = probes-cons t ts in
      let v = pump_tick-Patient t s u.0 (omega (arith, c, h)) (omega (arith, c, k)) in
      carry_on-kept r (pump json tuning ts r.0) v.kept
        (pump-patient ts r.0 u.1 (omega (arith, c, h, v.lifecycle)) (omega (arith, c, k, v.status)))
