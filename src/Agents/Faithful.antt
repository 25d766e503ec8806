-- ===== src/Agents/Faithful.antt =====
-- Over the whole of the stream of muxrd/src/grpc/agent_ops.rs, the events sent and still to be sent
-- make the rows that the server holds.
use muxr_core.Base.{ℕ, ◌≡◌, refl, sym, ap, ◌∙◌, Bool, List, [], ◌∷◌, ◌++◌, lookup, nat_key, All}
use mathlib.Core.List.{append_assoc}
use muxr_core.Mux.Agents.{AgentSnapshot}
use muxr_core.Agents.{AgentEvent, WatchState}
use muxr_core.Agents.Watch.{
  Stream, Turn, Flow, carry_on, waiting, gone, revoked, bus_closed, choose, select, deliver,
  sent_first, and_then_flow, drain_outbox, watch_turn, watch_loop, start_watch, DeliverTick,
}
use muxr_core.Agents.Mirror.{apply_event, replay, replay-append}
use muxr_core.Agents.Follows.{EachOnce, Follows, choose-Follows}

-- A client that has replayed what was sent, and then what is still to be sent, has exactly the rows
-- that are held.
pub record Mirrors (s : Stream) : Type 0 where
  pub rows : (k : ℕ) → lookup k (replay (s.sent ++ s.watch.outbox) []) ≡ lookup k s.watch.held

start_watch-Mirrors :
    (snapshots : List AgentSnapshot) (now : ℕ) → Mirrors (start_watch snapshots now)
unfolding start_watch replay apply_event
start_watch-Mirrors snapshots now = record { rows = λ k. refl }

Follows-Mirrors :
    (s : Stream) (st : WatchState)
    → Follows s.watch st
    → Mirrors s
    → Mirrors (record s { watch = st })
Follows-Mirrors s st f m = record {
  rows = λ k.
      ap (λ (es : List AgentEvent). lookup k (replay es []))
        (ap (λ (es : List AgentEvent). s.sent ++ es) f.added
          ∙ sym (append_assoc s.sent s.watch.outbox f.fresh))
      ∙ ap (lookup k) (replay-append (s.sent ++ s.watch.outbox) f.fresh [])
      ∙ f.led (replay (s.sent ++ s.watch.outbox) []) m.rows k;
}

sent_first-Mirrors :
    (e : AgentEvent) (rest : List AgentEvent) (f : Flow) (s : Stream)
    → s.watch.outbox ≡ e ∷ rest
    → Mirrors s
    → Mirrors (sent_first e rest f s).0
unfolding sent_first
sent_first-Mirrors e rest carry_on s h m = record {
  rows = λ k.
      ap (λ (es : List AgentEvent). lookup k (replay es []))
        (append_assoc s.sent (e ∷ []) rest ∙ ap (λ (es : List AgentEvent). s.sent ++ es) (sym h))
      ∙ m.rows k;
}
sent_first-Mirrors e rest waiting s h m = m
sent_first-Mirrors e rest gone s h m = m
sent_first-Mirrors e rest revoked s h m = m
sent_first-Mirrors e rest bus_closed s h m = m

-- What holds of a state however the flow goes on.
and_then_flow-keeps :
    (x next : Stream × Flow)
    → Mirrors x.0
    → (x.1 ≡ carry_on → Mirrors next.0)
    → Mirrors (and_then_flow x next).0
unfolding and_then_flow
and_then_flow-keeps (s, carry_on) next m k = k refl
and_then_flow-keeps (s, waiting) next m k = m
and_then_flow-keeps (s, gone) next m k = m
and_then_flow-keeps (s, revoked) next m k = m
and_then_flow-keeps (s, bus_closed) next m k = m

outbox-sent_first :
    (e : AgentEvent) (rest : List AgentEvent) (f : Flow) (s : Stream)
    → (sent_first e rest f s).1 ≡ carry_on
    → (sent_first e rest f s).0.watch.outbox ≡ rest
unfolding sent_first
outbox-sent_first e rest carry_on s h = refl
outbox-sent_first e rest waiting s h = cc
outbox-sent_first e rest gone s h = cc
outbox-sent_first e rest revoked s h = cc
outbox-sent_first e rest bus_closed s h = cc

drain_outbox-Mirrors :
    (has_token : Bool) (os : List AgentEvent) (ws : List (List DeliverTick)) (s : Stream)
    → s.watch.outbox ≡ os
    → Mirrors s
    → Mirrors (drain_outbox has_token os ws s).0
unfolding drain_outbox
drain_outbox-Mirrors has_token [] ws s h m = m
drain_outbox-Mirrors has_token (e ∷ rest) [] s h m = m
drain_outbox-Mirrors has_token (e ∷ rest) (w ∷ ws) s h m =
    let x = sent_first e rest (deliver has_token w) s in
    let v = sent_first-Mirrors e rest (deliver has_token w) s h m in
    and_then_flow-keeps x (drain_outbox has_token rest ws x.0) v (λ c.
      drain_outbox-Mirrors has_token rest ws x.0
        (outbox-sent_first e rest (deliver has_token w) s c) v)

watch_turn-Mirrors :
    (has_token : Bool) (debounce : ℕ) (t : Turn) (s : Stream)
    → EachOnce t.choice
    → Mirrors s
    → Mirrors (watch_turn has_token debounce t s).0
unfolding watch_turn select
watch_turn-Mirrors has_token debounce t s n m =
    let x = drain_outbox has_token s.watch.outbox t.waits s in
    let v = drain_outbox-Mirrors has_token s.watch.outbox t.waits s refl m in
    and_then_flow-keeps x (select has_token debounce t.choice x.0) v (λ c.
      Follows-Mirrors x.0 (choose has_token debounce t.choice x.0.watch).0
        (choose-Follows has_token debounce t.choice x.0.watch n) v)

watch_loop-keeps :
    (has_token : Bool) (debounce : ℕ) (ts : List Turn) (s : Stream)
    → All (λ t. EachOnce t.choice) ts
    → Mirrors s
    → Mirrors (watch_loop has_token debounce ts s).0
unfolding watch_loop
watch_loop-keeps has_token debounce [] s a m = m
watch_loop-keeps has_token debounce (t ∷ ts) s a m =
    let x = watch_turn has_token debounce t s in
    let v = watch_turn-Mirrors has_token debounce t s a.0 m in
    and_then_flow-keeps x (watch_loop has_token debounce ts x.0) v
      (λ c. watch_loop-keeps has_token debounce ts x.0 a.1 v)

-- Whatever the bus, the backend, the token and the client do, as long as a read names each pane
-- once: a client that replays the events sent so far, and those still in the outbox, has exactly
-- the rows that the server holds.
pub watch_loop-Mirrors :
    (has_token : Bool) (debounce : ℕ) (snapshots : List AgentSnapshot) (now : ℕ) (ts : List Turn)
    → All (λ t. EachOnce t.choice) ts
    → Mirrors (watch_loop has_token debounce ts (start_watch snapshots now)).0
watch_loop-Mirrors has_token debounce snapshots now ts a =
    watch_loop-keeps has_token debounce ts (start_watch snapshots now) a
      (start_watch-Mirrors snapshots now)
