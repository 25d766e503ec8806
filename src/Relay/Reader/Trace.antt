-- ===== src/Relay/Reader/Trace.antt =====
-- What the turns of muxrd/src/relay/reader.rs put before the thread, one sign after the other, and
-- what becomes of each query by them. Nothing here reads the state of the thread.
use muxr_core.Base.{
  ℕ, String, Option, none, some, Bool, true, false, not, List, [], ◌∷◌, ◌++◌, if◌then◌else◌,
}
use muxr_core.Relay.Reader.{
  Turn, Closed, InFlightQuery, Answer, ServerMsg, render, log, event, other, SessionEvent, exit,
  renamed_session, config_updated, switch_session, answer_of,
}

-- A query is handed over, the callers are looked at, or a text comes.
pub data Sign : Type 0 where
  asked : InFlightQuery → Sign
  looked : Closed → Sign
  told : String → Sign

unfoldable pub asked_all : List InFlightQuery → List Sign
asked_all [] = []
asked_all (q ∷ qs) = asked q ∷ asked_all qs

unfoldable pub told_by : Closed → ServerMsg → List Sign
told_by closed (render content) = []
told_by closed (log json) = looked closed ∷ told json ∷ []
told_by closed (event e) = []
told_by closed other = []

unfoldable pub event_lasts : Bool → SessionEvent → Bool
event_lasts gone (exit reason) = false
event_lasts gone (renamed_session name) = not gone
event_lasts gone config_updated = not gone
event_lasts gone (switch_session name) = not gone

-- The loop goes on after the message.
unfoldable pub lasts : Bool → ServerMsg → Bool
unfolding event_lasts
lasts gone (render content) = not gone
lasts gone (log json) = true
lasts gone (event e) = event_lasts gone e
lasts gone other = true

-- The signs of a turn once the session's answer is there, with those that come after the turn.
unfoldable pub signs_after : Turn → Option ServerMsg → List Sign → List Sign
unfolding asked_all told_by lasts
signs_after t none rest = []
signs_after t (some m) rest =
    if t.stop_after
    then []
    else looked t.closed_after
      ∷ (asked_all t.queries_after
          ++ (told_by t.closed_capture m ++ (if lasts t.client_gone m then rest else [])))

unfoldable pub signs : Turn → List Sign → List Sign
unfolding asked_all signs_after
signs t rest =
    if t.stop_before
    then []
    else looked t.closed_before ∷ (asked_all t.queries_before ++ signs_after t t.received rest)

unfoldable pub trace : List Turn → List Sign
unfolding signs
trace [] = []
trace (t ∷ ts) = signs t (trace ts)

-- The texts that come before the next query and before the caller is found to be gone.
unfoldable pub heard : ℕ → List Sign → List String
heard r [] = []
heard r (asked q ∷ rest) = []
heard r (looked closed ∷ rest) = let after = heard r rest in if closed r then [] else after
heard r (told json ∷ rest) = json ∷ heard r rest

-- The first text is that of the tabs, the second that of the panes.
unfoldable pub verdict : Option String → List String → Option Answer
unfolding answer_of
verdict none [] = none
verdict none (tabs ∷ []) = none
verdict none (tabs ∷ panes ∷ rest) = some (answer_of tabs panes)
verdict (some tabs) [] = none
verdict (some tabs) (panes ∷ rest) = some (answer_of tabs panes)

unfoldable pub verdict_on : InFlightQuery → List Sign → ℕ × Option Answer
unfolding verdict heard
verdict_on q rest = (q.reply, verdict q.tabs (heard q.reply rest))

-- Each query, in the order of their coming, with its answer or without one.
unfoldable pub verdicts : List Sign → List (ℕ × Option Answer)
unfolding verdict_on
verdicts [] = []
verdicts (asked q ∷ rest) = verdict_on q rest ∷ verdicts rest
verdicts (looked closed ∷ rest) = verdicts rest
verdicts (told json ∷ rest) = verdicts rest

unfoldable pub answered : List (ℕ × Option Answer) → List (ℕ × Answer)
answered [] = []
answered ((r, none) ∷ vs) = answered vs
answered ((r, some a) ∷ vs) = (r, a) ∷ answered vs

unfoldable pub unanswered : List (ℕ × Option Answer) → List ℕ
unanswered [] = []
unanswered ((r, none) ∷ vs) = r ∷ unanswered vs
unanswered ((r, some a) ∷ vs) = unanswered vs
