-- ===== src/Herdr/Kernel/Pump/Covered.antt =====
-- While the pump of muxrd/src/multiplexer/herdr/subscribe.rs goes on, its set of panes is what the
-- lifecycle connection announced.
use muxr_core.Base.{
  ◌≡◌, ◌≢◌, refl, sym, subst, String, Option, none, some, Option-cases, inl, inr, Bool, true, false,
  not, ap, List, [], ◌∷◌, contains, discard, contains-discard, string_discrete, string_key,
  if◌then◌else◌, ℕ, leb, arith, trim_end,
}
use muxr_core.Herdr.LineReader.{line, eof, failed}
use muxr_core.Herdr.Kernel.Backoff.{Tuning}
use muxr_core.Herdr.Kernel.Lines.{
  Json, PaneChange, created, gone, Pushed, agent_status, pane_created, pane_gone, layout_updated,
  ignored, pushed_envelope, classify_pushed, classify_event, change_of, lifecycle_change,
  pane_gone_id, parse_pane_gone, parse_agent_status, parse_status_data, status_fields,
  parse_layout_updated, layout_ids, and_then,
}
use muxr_core.Herdr.PaneRegistry.{PaneInner}
use muxr_core.Herdr.Kernel.Bootstrap.{creates, removes, pane_needs_widening}
use muxr_core.Herdr.Kernel.Pump.{
  Session, Tick, stop, on_lifecycle, on_status, on_probe, Pump, pumping, shutdown, lifecycle_lost,
  status_lost, widen, pump_tick, pump, on_pushed, on_status_pushed, lifecycle_line, status_line,
  pump_probe, on_verdict, on_probed, forget_pane, forget_number, forget_id, publish_layout, publish,
  carry_on, idle_for, mark_event,
}
use muxr_core.Herdr.Kernel.Resync.{
  Verdict, healthy, lifecycle_wedged, status_wedged, liveness_probe,
}

-- Whether a pane is there after a change, when `b` tells whether it was there before.
unfoldable pub after_change : String → Option PaneChange → Bool → Bool
unfolding creates removes
after_change id c b = if creates id c then true else if removes id c then false else b

-- Whether a pane is there after the lifecycle lines of the ticks.
unfoldable pub told : Json → String → Bool → List Tick → Bool
unfolding lifecycle_change after_change trim_end
told json id b [] = b
told json id b (on_lifecycle now (line l) ∷ ts) =
    told json id (after_change id (lifecycle_change json (trim_end l)) b) ts
told json id b (on_lifecycle now eof ∷ ts) = told json id b ts
told json id b (on_lifecycle now failed ∷ ts) = told json id b ts
told json id b (on_status now r ∷ ts) = told json id b ts
told json id b (on_probe now c ∷ ts) = told json id b ts
told json id b (stop ∷ ts) = told json id b ts

unfoldable pub pushed_change : Pushed → Option PaneChange
pushed_change (pane_created p) = some (created p)
pushed_change (pane_gone p id) = some (gone p)
pushed_change (agent_status ev) = none
pushed_change (layout_updated w t) = none
pushed_change ignored = none

covers : (b : Bool) → (if not b then widen else pumping) ≡ pumping → b ≡ true
covers true h = refl
covers false h = cc

on_pushed-subscribed :
    (id : String) (p : Pushed) (s : Session)
    → (on_pushed p s).1 ≡ pumping
    → contains id (on_pushed p s).0.subscribed
      ≡ after_change id (pushed_change p) (contains id s.subscribed)
unfolding on_pushed after_change creates removes pushed_change pane_needs_widening contains discard
    forget_pane forget_number forget_id publish_layout publish string_discrete
on_pushed-subscribed id (pane_created none) s h = cc
on_pushed-subscribed id (pane_created (some q)) s h =
    ground (arith, ap (λ (t : String). contains t s.subscribed), covers (contains q s.subscribed))
on_pushed-subscribed id (pane_gone none none) s h = refl
on_pushed-subscribed id (pane_gone none (some n)) s h = refl
on_pushed-subscribed id (pane_gone (some q) none) s h =
    ground (arith, contains-discard q id s.subscribed)
on_pushed-subscribed id (pane_gone (some q) (some n)) s h =
    ground (arith, contains-discard q id s.subscribed)
on_pushed-subscribed id (agent_status ev) s h = refl
on_pushed-subscribed id (layout_updated w t) s h = refl
on_pushed-subscribed id ignored s h = refl

module _ (json : Json) where
  status_change :
      (payload : Option json.Value) (panes : PaneInner)
      → pushed_change (parse_agent_status json payload panes).1 ≡ none
  unfolding parse_agent_status parse_status_data pushed_change
  status_change none panes = refl
  status_change (some d) panes = elim (Option-cases (status_fields json d)) [
    | inl e ↦ rw (e, parse_status_data) refl
    | inr (f, e) ↦ rw (e, parse_status_data) refl
  ]

  layout_change :
      (payload : Option json.Value) → pushed_change (parse_layout_updated json payload) ≡ none
  unfolding parse_layout_updated pushed_change
  layout_change payload =
      elim (Option-cases
        (and_then payload (λ d. and_then (json.get d "layout") (layout_ids json)))) [
          | inl e ↦ rw (e, parse_layout_updated) refl
          | inr (f, e) ↦ rw (e, parse_layout_updated) refl
        ]

  gone_change :
      (id : String) (payload : Option json.Value) (panes : PaneInner) (b : Bool)
      → after_change id (pushed_change (parse_pane_gone json payload panes)) b
        ≡ after_change id (some (gone (pane_gone_id json payload))) b
  unfolding parse_pane_gone pushed_change after_change creates removes
  gone_change id payload panes b = elim (Option-cases (pane_gone_id json payload)) [
    | inl e ↦ rw (e, parse_pane_gone) refl
    | inr (f, e) ↦ rw (e, parse_pane_gone) refl
  ]

  other_event-change :
      (id event : String) (payload : Option json.Value) (panes : PaneInner) (b : Bool)
      → event ≢ "pane_agent_status_changed"
      → after_change id (pushed_change (classify_event json event payload panes).1) b
        ≡ after_change id (change_of json event payload) b
  unfolding classify_event change_of pushed_change
  other_event-change id event payload panes b ne = ground (
    arith,
    ap (λ (c : Option PaneChange). after_change id c b) (layout_change payload),
    gone_change id payload panes b,
  )

  classify_event-change :
      (id event : String) (payload : Option json.Value) (panes : PaneInner) (b : Bool)
      → after_change id (pushed_change (classify_event json event payload panes).1) b
        ≡ after_change id (change_of json event payload) b
  unfolding classify_event change_of string_discrete pushed_change after_change creates removes
  classify_event-change id event payload panes b =
      elim (string_discrete event "pane_agent_status_changed") [
        | yes e ↦
            subst
              (λ (t : String).
                after_change id (pushed_change (classify_event json t payload panes).1) b
                ≡ after_change id (change_of json t payload) b)
              (sym e)
              (ap (λ (c : Option PaneChange). after_change id c b) (status_change payload panes))
        | no ne ↦ other_event-change id event payload panes b ne
      ]

  classify_pushed-change :
      (id l : String) (panes : PaneInner) (b : Bool)
      → after_change id (pushed_change (classify_pushed json l panes).1) b
        ≡ after_change id (lifecycle_change json l) b
  unfolding classify_pushed lifecycle_change pushed_change
  classify_pushed-change id l panes b = elim (Option-cases (pushed_envelope json l)) [
    | inl e ↦ rw (e, classify_pushed, lifecycle_change) refl
    | inr ((event, d), e) ↦
        rw (e, classify_pushed, lifecycle_change) (classify_event-change id event d panes b)
  ]

carry_on-pumping :
    (r rest : Session × Pump)
    → (carry_on r rest).1 ≡ pumping
    → (r.1 ≡ pumping) × (carry_on r rest ≡ rest)
unfolding carry_on
carry_on-pumping (s, pumping) rest h = (refl, refl)
carry_on-pumping (s, shutdown) rest h = cc
carry_on-pumping (s, lifecycle_lost) rest h = cc
carry_on-pumping (s, status_lost) rest h = cc
carry_on-pumping (s, widen) rest h = cc

on_status_pushed-subscribed :
    (p : Pushed) (s : Session) → (on_status_pushed p s).subscribed ≡ s.subscribed
unfolding on_status_pushed publish
on_status_pushed-subscribed (pane_created p) s = refl
on_status_pushed-subscribed (pane_gone p id) s = refl
on_status_pushed-subscribed (agent_status ev) s = refl
on_status_pushed-subscribed (layout_updated w t) s = refl
on_status_pushed-subscribed ignored s = refl

on_verdict-subscribed :
    (needed : ℕ) (a b : Bool) (s : Session) (v : Verdict)
    → (on_verdict needed a b s v).0.subscribed ≡ s.subscribed
unfolding on_verdict
on_verdict-subscribed needed a b s healthy = refl
on_verdict-subscribed needed a b s lifecycle_wedged = ground arith
on_verdict-subscribed needed a b s status_wedged = ground arith

on_probed-subscribed :
    (needed : ℕ) (a b : Bool) (s : Session) (v : Option Verdict)
    → (on_probed needed a b s v).0.subscribed ≡ s.subscribed
unfolding on_probed
on_probed-subscribed needed a b s none = refl
on_probed-subscribed needed a b s (some v) = on_verdict-subscribed needed a b s v

module _ (json : Json) (tuning : Tuning) where
  pump_tick-subscribed :
      (id : String) (t : Tick) (s : Session)
      → (pump_tick json tuning t s).1 ≡ pumping
      → contains id (pump_tick json tuning t s).0.subscribed
        ≡ told json id (contains id s.subscribed) (t ∷ [])
  unfolding pump_tick told lifecycle_line status_line pump_probe
  pump_tick-subscribed id stop s h = refl
  pump_tick-subscribed id (on_lifecycle now eof) s h = refl
  pump_tick-subscribed id (on_lifecycle now failed) s h = refl
  pump_tick-subscribed id (on_lifecycle now (line l)) s h =
      let (panes, p) = classify_pushed json (trim_end l) s.tables.panes in
      ground (
        arith,
        on_pushed-subscribed id p (record s {
          lifecycle = mark_event now s.lifecycle;
          tables = record s.tables { panes = panes };
        }),
        classify_pushed-change json id (trim_end l) s.tables.panes (contains id s.subscribed),
      )
  pump_tick-subscribed id (on_status now eof) s h = refl
  pump_tick-subscribed id (on_status now failed) s h = refl
  pump_tick-subscribed id (on_status now (line l)) s h =
      let (panes, p) = classify_pushed json (trim_end l) s.tables.panes in
      ap (contains id) (
        on_status_pushed-subscribed p (record s {
          status = mark_event now s.status;
          tables = record s.tables { panes = panes };
        }))
  pump_tick-subscribed id (on_probe now control) s h = ground (
    arith,
    on_probed-subscribed tuning.probe_strikes (leb tuning.probe_interval (idle_for now s.lifecycle))
        (leb tuning.probe_interval (idle_for now s.status)) s
        (liveness_probe control s.tables s.subscribed),
  )

  told-cons :
      (id : String) (b : Bool) (t : Tick) (ts : List Tick)
      → told json id b (t ∷ ts) ≡ told json id (told json id b (t ∷ [])) ts
  unfolding told
  told-cons id b stop ts = refl
  told-cons id b (on_lifecycle now eof) ts = refl
  told-cons id b (on_lifecycle now failed) ts = refl
  told-cons id b (on_lifecycle now (line l)) ts = refl
  told-cons id b (on_status now r) ts = refl
  told-cons id b (on_probe now c) ts = refl

  -- While the pump goes on, a pane is in the subscribed set exactly if the lifecycle lines since it
  -- started say so: the last one about the pane announces it, or none is about it and it was there
  -- before.
  pub pump-subscribed :
      (id : String) (ts : List Tick) (s : Session)
      → (pump json tuning ts s).1 ≡ pumping
      → contains id (pump json tuning ts s).0.subscribed
        ≡ told json id (contains id s.subscribed) ts
  unfolding pump told
  pump-subscribed id [] s h = refl
  pump-subscribed id (t ∷ ts) s h =
      let r = pump_tick json tuning t s in
      let c = carry_on-pumping r (pump json tuning ts r.0) h in
      ground (
        arith,
        c,
        pump_tick-subscribed id t s,
        pump-subscribed id ts r.0,
        told-cons id (contains id s.subscribed) t ts,
      )
