-- ===== src/Agents/Follows.antt =====
-- What one step of the stream of muxrd/src/grpc/agent_ops.rs adds for the client.
use muxr_core.Base.{
  ℕ, ◌+◌, ◌≡◌, refl, sym, subst, ap, ◌∙◌, Option, none, some, Bool, true, false, ◌&&◌, List, [],
  ◌∷◌, ◌++◌, map, Map, lookup, remove, contains, discard, lookup-insert, lookup-remove, is_some,
  if_keeps, leb, nat_key, arith, NoRepeat,
}
use mathlib.Core.List.{append-nil}
use muxr_core.Mux.Agents.{AgentSnapshot, put_agent, sort_agents, key_le, sort_key}
use muxr_core.Mux.Events.{agent_status_changed, layout_changed, pane_closed, resynced}
use muxr_core.Agents.{
  AgentMsg, AgentList, AgentEvent, snapshot, changed, removed, agent_msg, build_agent_list,
  WatchState, InFlight, take_list, finish_read, not_closed, apply_msg, apply_status, drop_row,
  close_in_flight, on_bus, Recv, received, lagged, bus_ended, start_read, reread_wanted, reconcile,
}
use muxr_core.Agents.Watch.{
  Choice, client_gone, recheck, read_done, reread, bus, read_result, choose,
}
use muxr_core.Agents.Mirror.{apply_event, replay, panes_of, reconcile-replay}

abbrev pub listed_panes : List AgentSnapshot → List ℕ
listed_panes [] = []
listed_panes (a ∷ rest) = a.pane ∷ listed_panes rest

-- A read that gives agents names each pane once.
abbrev pub EachOnce : Choice → Type 0
EachOnce (read_done (some snapshots)) = NoRepeat (listed_panes snapshots)
EachOnce (read_done none) = Unit
EachOnce client_gone = Unit
EachOnce (recheck check) = Unit
EachOnce (reread now) = Unit
EachOnce (bus recv) = Unit

-- The new state's rows are those of the old one after the events that were added to the outbox.
pub record Follows (st st' : WatchState) : Type 0 where
  pub fresh : List AgentEvent
  pub added : st'.outbox ≡ st.outbox ++ fresh
  pub led :
      (c : Map ℕ AgentMsg)
      → ((k : ℕ) → lookup k c ≡ lookup k st.held)
      → (k : ℕ) → lookup k (replay fresh c) ≡ lookup k st'.held

pub same-Follows :
    (st st' : WatchState) → st'.held ≡ st.held → st'.outbox ≡ st.outbox → Follows st st'
unfolding replay
same-Follows st st' h e = record {
  fresh = [];
  added = e ∙ sym (append-nil st.outbox);
  led = λ c m k. m k ∙ ap (lookup k) (sym h);
}

pub apply_msg-Follows : (o : Option AgentMsg) (st : WatchState) → Follows st (apply_msg o st)
unfolding apply_msg replay apply_event
apply_msg-Follows none st = same-Follows st st refl refl
apply_msg-Follows (some msg) st = record {
  fresh = changed msg ∷ [];
  added = refl;
  led = λ c m k.
      ground
        (arith, m k, lookup-insert msg.pane_id k msg c, lookup-insert msg.pane_id k msg st.held);
}

pub drop_row-Follows : (pane : ℕ) (st : WatchState) → Follows st (drop_row pane st)
unfolding drop_row replay apply_event
drop_row-Follows pane st =
    if_keeps (Follows st) (is_some (lookup pane st.held))
      (record st { held = remove pane st.held; outbox = st.outbox ++ (removed pane ∷ []) }) st
      (record {
        fresh = removed pane ∷ [];
        added = refl;
        led = λ c m k. ground (arith, m k, lookup-remove pane k c, lookup-remove pane k st.held);
      })
      (same-Follows st st refl refl)

pub on_bus-Follows : (r : Recv) (st : WatchState) → Follows st (on_bus r st).0
unfolding on_bus
on_bus-Follows (received (agent_status_changed ev)) st =
    let v = apply_msg-Follows (apply_status st.held ev) st in
    record { fresh = v.fresh; added = v.added; led = v.led }
on_bus-Follows (received (pane_closed pane)) st =
    let v =
      drop_row-Follows pane
        (record st { stale = discard pane st.stale; reading = close_in_flight pane st.reading }) in
    record { fresh = v.fresh; added = v.added; led = v.led }
on_bus-Follows (received (layout_changed w t)) st = same-Follows st st refl refl
on_bus-Follows (received resynced) st = same-Follows st (record st { resnapshot = true }) refl refl
on_bus-Follows (lagged n) st = same-Follows st (record st { resnapshot = true }) refl refl
on_bus-Follows bus_ended st = same-Follows st st refl refl

pub take_list-Follows :
    (b : Bool) (list : AgentList) (st : WatchState)
    → NoRepeat (panes_of list.agents)
    → Follows st (take_list b list st)
unfolding take_list replay apply_event
take_list-Follows true list st n = record {
  fresh = snapshot list ∷ [];
  added = refl;
  led = λ c m k. refl;
}
take_list-Follows false list st n = record {
  fresh = (reconcile st.held list st.stale).1;
  added = refl;
  led = λ c m k. reconcile-replay k st.held list st.stale c n (m k);
}

pub panes_of-msgs : (l : List AgentSnapshot) → panes_of (map agent_msg l) ≡ listed_panes l
unfolding agent_msg
panes_of-msgs [] = refl
panes_of-msgs (a ∷ l) = ap (λ (ps : List ℕ). a.pane ∷ ps) (panes_of-msgs l)

pub contains-put_agent :
    (k : ℕ) (a : AgentSnapshot) (l : List AgentSnapshot)
    → contains k (listed_panes (put_agent a l)) ≡ contains k (a.pane ∷ listed_panes l)
unfolding put_agent contains
contains-put_agent k a [] = refl
contains-put_agent k a (b ∷ l) = ground (arith, contains-put_agent k a l)

pub put_agent-NoRepeat :
    (a : AgentSnapshot) (l : List AgentSnapshot)
    → contains a.pane (listed_panes l) ≡ false
    → NoRepeat (listed_panes l)
    → NoRepeat (listed_panes (put_agent a l))
unfolding put_agent contains
put_agent-NoRepeat a [] h n = (h, tt)
put_agent-NoRepeat a (b ∷ l) h n =
    if_keeps (λ (x : List AgentSnapshot). NoRepeat (listed_panes x))
      (key_le (sort_key b) (sort_key a)) (a ∷ b ∷ l) (b ∷ put_agent a l) (h, n)
      (
        ground (arith, contains-put_agent b.pane a l, n.0, h),
        put_agent-NoRepeat a l (ground (arith, h)) n.1,
      )

pub contains-sort_agents :
    (k : ℕ) (l : List AgentSnapshot)
    → contains k (listed_panes (sort_agents l)) ≡ contains k (listed_panes l)
unfolding sort_agents contains
contains-sort_agents k [] = refl
contains-sort_agents k (a ∷ l) =
    ground (arith, contains-put_agent k a (sort_agents l), contains-sort_agents k l)

pub sort_agents-NoRepeat :
    (l : List AgentSnapshot) → NoRepeat (listed_panes l) → NoRepeat (listed_panes (sort_agents l))
unfolding sort_agents
sort_agents-NoRepeat [] n = tt
sort_agents-NoRepeat (a ∷ l) n =
    put_agent-NoRepeat a (sort_agents l) (contains-sort_agents a.pane l ∙ n.0)
      (sort_agents-NoRepeat l n.1)

pub contains-not_closed :
    (k : ℕ) (closed : List ℕ) (l : List AgentSnapshot)
    → contains k (listed_panes l) ≡ false
    → contains k (listed_panes (not_closed closed l)) ≡ false
unfolding not_closed contains
contains-not_closed k closed [] h = refl
contains-not_closed k closed (a ∷ l) h = ground (arith, contains-not_closed k closed l)

pub not_closed-NoRepeat :
    (closed : List ℕ) (l : List AgentSnapshot)
    → NoRepeat (listed_panes l)
    → NoRepeat (listed_panes (not_closed closed l))
unfolding not_closed
not_closed-NoRepeat closed [] n = tt
not_closed-NoRepeat closed (a ∷ l) n =
    if_keeps (λ (x : List AgentSnapshot). NoRepeat (listed_panes x)) (contains a.pane closed)
      (not_closed closed l) (a ∷ not_closed closed l) (not_closed-NoRepeat closed l n.1)
      (contains-not_closed a.pane closed l n.0, not_closed-NoRepeat closed l n.1)

pub build_agent_list-NoRepeat :
    (l : List AgentSnapshot)
    → NoRepeat (listed_panes l)
    → NoRepeat (panes_of (build_agent_list l).agents)
unfolding build_agent_list
build_agent_list-NoRepeat l n =
    subst (λ (ps : List ℕ). NoRepeat ps) (sym (panes_of-msgs (sort_agents l)))
      (sort_agents-NoRepeat l n)

pub finish_read-Follows :
    (flight : InFlight) (read : Option (List AgentSnapshot)) (st : WatchState)
    → EachOnce (read_done read)
    → Follows st (finish_read flight read st)
unfolding finish_read
finish_read-Follows flight none st n = same-Follows st (finish_read flight none st) refl refl
finish_read-Follows flight (some l) st n =
    let v =
      take_list-Follows flight.resnapshot (build_agent_list (not_closed flight.closed l))
        (record st { read_failing = false })
        (build_agent_list-NoRepeat (not_closed flight.closed l)
          (not_closed-NoRepeat flight.closed l n)) in
    record { fresh = v.fresh; added = v.added; led = v.led }

pub read_result-Follows :
    (o : Option InFlight) (read : Option (List AgentSnapshot)) (st : WatchState)
    → EachOnce (read_done read)
    → Follows st (read_result o read st)
unfolding read_result
read_result-Follows none read st n = same-Follows st st refl refl
read_result-Follows (some flight) read st n =
    let v = finish_read-Follows flight read (record st { reading = none }) n in
    record { fresh = v.fresh; added = v.added; led = v.led }

pub choose-Follows :
    (has_token : Bool) (debounce : ℕ) (c : Choice) (st : WatchState)
    → EachOnce c
    → Follows st (choose has_token debounce c st).0
unfolding choose start_read
choose-Follows has_token debounce client_gone st n = same-Follows st st refl refl
choose-Follows has_token debounce (recheck check) st n = same-Follows st st refl refl
choose-Follows has_token debounce (read_done read) st n = read_result-Follows st.reading read st n
choose-Follows has_token debounce (reread now) st n =
    if_keeps (Follows st) (reread_wanted st && leb (st.last_list + debounce) now)
      (start_read now st) st (same-Follows st (start_read now st) refl refl)
      (same-Follows st st refl refl)
choose-Follows has_token debounce (bus r) st n = on_bus-Follows r st
