-- ===== src/Relay/Reader.antt =====
-- muxrd/src/relay/reader.rs: the thread that forwards a session's messages to the client and pairs
-- the replies of a layout query. A turn of its loop has what the stop flag, the channel of queries,
-- the session and the client's channel do; the loop runs over a list of turns.
pub mod Quiet
pub mod Pairing
pub mod Trace
pub mod Foretells
pub mod Verdicts
use muxr_core.Base.{
  ℕ, suc, ◌+◌, String, Option, none, some, Bool, true, false, not, List, [], ◌∷◌, ◌++◌,
  if◌then◌else◌, is_empty_str,
}
use muxr_core.Routing.Names.{Bytes}

pub data SessionEvent : Type 0 where
  exit : String → SessionEvent
  renamed_session : String → SessionEvent
  config_updated : SessionEvent
  switch_session : String → SessionEvent

pub data ServerMsg : Type 0 where
  render : Bytes → ServerMsg
  log : String → ServerMsg
  event : SessionEvent → ServerMsg
  other : ServerMsg

pub data ServerFrame : Type 0 where
  render_frame : Bytes → ServerFrame
  control_frame : String → String → ServerFrame

-- The reply channel is named by a number.
pub record InFlightQuery : Type 0 where
  pub seq : ℕ
  pub reply : ℕ
  pub tabs : Option String

-- What is sent on a reply channel; a pair of texts goes through the parser of the backend.
pub data Answer : Type 0 where
  empty_tabs : Answer
  empty_panes : Answer
  parsed : String → String → Answer

-- The lists have the latest at the end. Reply channels that are dropped without an answer are
-- cancelled.
pub record Reader : Type 0 where
  pub in_flight : Option InFlightQuery
  pub renders : ℕ
  pub frames : List ServerFrame
  pub answers : List (ℕ × Answer)
  pub cancelled : List ℕ

abbrev pub initial : Reader
initial = record { in_flight = none; renders = 0; frames = []; answers = []; cancelled = [] }

-- The reply channels that are closed at that time.
abbrev pub Closed : Type 0
Closed = ℕ → Bool

pub record Turn : Type 0 where
  pub stop_before : Bool
  pub closed_before : Closed
  pub queries_before : List InFlightQuery
  pub received : Option ServerMsg
  pub stop_after : Bool
  pub closed_after : Closed
  pub queries_after : List InFlightQuery
  pub closed_capture : Closed
  pub client_gone : Bool

-- Dropping the query in flight cancels its reply.
unfoldable pub drop_query : Option InFlightQuery → Reader → Reader
drop_query none s = record s { in_flight = none }
drop_query (some q) s = record s { in_flight = none; cancelled = s.cancelled ++ (q.reply ∷ []) }

unfoldable pub retire : Closed → Option InFlightQuery → Reader → Reader
unfolding drop_query
retire closed none s = s
retire closed (some q) s = if closed q.reply then drop_query (some q) s else s

-- A newer query replaces the one that is held.
unfoldable pub pick_up : List InFlightQuery → Reader → Reader
unfolding drop_query
pick_up [] s = s
pick_up (q ∷ qs) s = pick_up qs (record (drop_query s.in_flight s) { in_flight = some q })

unfoldable pub drain_queries : Closed → List InFlightQuery → Reader → Reader
unfolding retire pick_up
drain_queries closed queries s = pick_up queries (retire closed s.in_flight s)

unfoldable pub answer_of : String → String → Answer
answer_of tabs panes =
    if is_empty_str tabs
    then empty_tabs
    else if is_empty_str panes
    then empty_panes
    else parsed tabs panes

-- The first text is that of the tabs, the second that of the panes.
unfoldable pub capture : String → InFlightQuery → Option String → Reader → Reader
unfolding answer_of
capture json q none s = record s { in_flight = some (record q { tabs = some json }) }
capture json q (some tabs) s = record s {
  in_flight = none;
  answers = s.answers ++ ((q.reply, answer_of tabs json) ∷ []);
}

unfoldable pub capture_held : Closed → String → Option InFlightQuery → Reader → Reader
unfolding capture drop_query
capture_held closed json none s = s
capture_held closed json (some q) s =
    if closed q.reply then drop_query (some q) s else capture json q q.tabs s

unfoldable pub capture_query_log : Closed → String → Reader → Reader
unfolding capture_held
capture_query_log closed json s = capture_held closed json s.in_flight s

unfoldable pub send : ServerFrame → Reader → Reader
send f s = record s { frames = s.frames ++ (f ∷ []) }

-- A control frame; the loop ends when the client is gone.
unfoldable pub send_control : Bool → String → String → Reader → Reader × Bool
unfolding send
send_control gone kind payload s =
    if gone then (s, false) else (send (control_frame kind payload) s, true)

unfoldable pub on_event : Bool → SessionEvent → Reader → Reader × Bool
unfolding send_control drop_query
on_event gone (exit reason) s =
    let s' = drop_query s.in_flight s in ((send_control gone "exit" reason s').0, false)
on_event gone (renamed_session name) s = send_control gone "renamed_session" name s
on_event gone config_updated s = send_control gone "config_updated" "" s
on_event gone (switch_session name) s = send_control gone "switch_session" name s

-- The state after the message, and whether the loop goes on.
unfoldable pub on_message : Turn → ServerMsg → Reader → Reader × Bool
unfolding send capture_query_log on_event drop_query
on_message t (render content) s =
    if t.client_gone
    then (drop_query s.in_flight s, false)
    else (let s' = send (render_frame content) s in (record s' { renders = suc s'.renders }, true))
on_message t (log json) s = (capture_query_log t.closed_capture json s, true)
on_message t (event e) s = on_event t.client_gone e s
on_message t other s = (s, true)

unfoldable pub after_recv : Turn → Option ServerMsg → Reader → Reader × Bool
unfolding drop_query drain_queries on_message
after_recv t none s = (drop_query s.in_flight s, false)
after_recv t (some msg) s =
    if t.stop_after
    then (drop_query s.in_flight s, false)
    else on_message t msg (drain_queries t.closed_after t.queries_after s)

unfoldable pub render_turn : Turn → Reader → Reader × Bool
unfolding drain_queries after_recv
render_turn t s =
    if t.stop_before
    then (s, false)
    else after_recv t t.received (drain_queries t.closed_before t.queries_before s)

-- The next turn; when the loop has ended, the local query is dropped.
unfoldable pub next_turn : Reader × Bool → Reader × Bool → Reader × Bool
unfolding drop_query
next_turn (s, true) rest = rest
next_turn (s, false) rest = (drop_query s.in_flight s, false)

unfoldable pub render_loop : List Turn → Reader → Reader × Bool
unfolding render_turn next_turn
render_loop [] s = (s, true)
render_loop (t ∷ ts) s = next_turn (render_turn t s) (render_loop ts (render_turn t s).0)

-- What the drop of a `ShutdownGuard` does to the session before it joins the thread.
pub data Nudge : Type 0 where
  client_exited : Nudge
  resized : ℕ → ℕ → Nudge

unfoldable pub shutdown_nudge : Bool → ℕ → ℕ → Nudge
shutdown_nudge read_only rows cols = if read_only then client_exited else resized rows cols
