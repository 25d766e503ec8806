-- ===== src/Agents/Watch.antt =====
-- muxrd/src/grpc/agent_ops.rs: the loop of a stream of agents, and how the stream starts. A turn has
-- what each wait for room in the channel yields, and what the select yields after them.
use muxr_core.Base.{
  ℕ, ◌+◌, Option, none, some, Bool, false, ◌&&◌, List, [], ◌∷◌, ◌++◌, leb, if◌then◌else◌,
}
use muxr_core.Mux.Agents.{AgentSnapshot}
use muxr_core.Agents.{
  AgentEvent, snapshot, build_agent_list, hold, InFlight, WatchState, new_watch, reread_wanted,
  start_read, finish_read, Recv, on_bus,
}

-- How a token's check on the blocking pool ends: with an answer, with an error, or with a panic.
pub data TokenCheck : Type 0 where
  token_checked : Bool → TokenCheck
  token_error : TokenCheck
  token_panicked : TokenCheck

-- A stream without a token fails closed, as a check does that did not come to an answer.
unfoldable pub token_still_valid : Bool → TokenCheck → Bool
token_still_valid has_token (token_checked valid) = if has_token then valid else false
token_still_valid has_token token_error = false
token_still_valid has_token token_panicked = false

pub data Flow : Type 0 where
  carry_on : Flow
  waiting : Flow
  gone : Flow
  revoked : Flow
  bus_closed : Flow

pub data DeliverTick : Type 0 where
  deliver_closed : DeliverTick
  deliver_recheck : TokenCheck → DeliverTick
  deliver_permit : Bool → DeliverTick

-- Waiting for room in the channel never keeps a check of the token from being made.
unfoldable pub deliver : Bool → List DeliverTick → Flow
unfolding token_still_valid
deliver has_token [] = waiting
deliver has_token (deliver_closed ∷ ts) = gone
deliver has_token (deliver_recheck check ∷ ts) =
    let rest = deliver has_token ts in if token_still_valid has_token check then rest else revoked
deliver has_token (deliver_permit ok ∷ ts) = if ok then carry_on else gone

-- The stream's state, and the events that were sent, the latest at the end.
pub record Stream : Type 0 where
  pub watch : WatchState
  pub sent : List AgentEvent

-- The first event of the outbox goes out, when there was room for it.
unfoldable pub sent_first : AgentEvent → List AgentEvent → Flow → Stream → Stream × Flow
sent_first e rest carry_on s =
    (record { watch = record s.watch { outbox = rest }; sent = s.sent ++ (e ∷ []) }, carry_on)
sent_first e rest waiting s = (s, waiting)
sent_first e rest gone s = (s, gone)
sent_first e rest revoked s = (s, revoked)
sent_first e rest bus_closed s = (s, bus_closed)

unfoldable pub and_then_flow : Stream × Flow → Stream × Flow → Stream × Flow
and_then_flow (s, carry_on) next = next
and_then_flow (s, waiting) next = (s, waiting)
and_then_flow (s, gone) next = (s, gone)
and_then_flow (s, revoked) next = (s, revoked)
and_then_flow (s, bus_closed) next = (s, bus_closed)

-- The waits, one for each event of the outbox.
unfoldable pub drain_outbox :
    Bool → List AgentEvent → List (List DeliverTick) → Stream → Stream × Flow
unfolding deliver sent_first and_then_flow
drain_outbox has_token [] waits s = (s, carry_on)
drain_outbox has_token (e ∷ rest) [] s = (s, waiting)
drain_outbox has_token (e ∷ rest) (w ∷ ws) s =
    let x = sent_first e rest (deliver has_token w) s in
    and_then_flow x (drain_outbox has_token rest ws x.0)

-- What the select yields. A branch whose guard does not hold is not taken.
pub data Choice : Type 0 where
  client_gone : Choice
  recheck : TokenCheck → Choice
  read_done : Option (List AgentSnapshot) → Choice
  reread : ℕ → Choice
  bus : Recv → Choice

unfoldable pub read_result : Option InFlight → Option (List AgentSnapshot) → WatchState → WatchState
unfolding finish_read
read_result none read st = st
read_result (some flight) read st = finish_read flight read (record st { reading = none })

unfoldable pub choose : Bool → ℕ → Choice → WatchState → WatchState × Flow
unfolding token_still_valid read_result reread_wanted start_read on_bus
choose has_token debounce client_gone st = (st, gone)
choose has_token debounce (recheck check) st =
    (st, if token_still_valid has_token check then carry_on else revoked)
choose has_token debounce (read_done read) st = (read_result st.reading read st, carry_on)
choose has_token debounce (reread now) st = (
  if reread_wanted st && leb (st.last_list + debounce) now then start_read now st else st,
  carry_on,
)
choose has_token debounce (bus recv) st =
    let (st', there) = on_bus recv st in (st', if there then carry_on else bus_closed)

pub record Turn : Type 0 where
  pub waits : List (List DeliverTick)
  pub choice : Choice

unfoldable pub select : Bool → ℕ → Choice → Stream → Stream × Flow
unfolding choose
select has_token debounce c s =
    let (watch, flow) = choose has_token debounce c s.watch in (record s { watch = watch }, flow)

unfoldable pub watch_turn : Bool → ℕ → Turn → Stream → Stream × Flow
unfolding drain_outbox select and_then_flow
watch_turn has_token debounce t s =
    let x = drain_outbox has_token s.watch.outbox t.waits s in
    and_then_flow x (select has_token debounce t.choice x.0)

unfoldable pub watch_loop : Bool → ℕ → List Turn → Stream → Stream × Flow
unfolding watch_turn and_then_flow
watch_loop has_token debounce [] s = (s, carry_on)
watch_loop has_token debounce (t ∷ ts) s =
    let x = watch_turn has_token debounce t s in
    and_then_flow x (watch_loop has_token debounce ts x.0)

-- The first read is the first message.
unfoldable pub start_watch : List AgentSnapshot → ℕ → Stream
unfolding build_agent_list hold
start_watch snapshots now =
    let list = build_agent_list snapshots in
    record { watch = new_watch (hold list) now; sent = snapshot list ∷ [] }
