-- ===== src/Relay/Reader/Quiet.antt =====
-- Turns of muxrd/src/relay/reader.rs in which nobody disturbs a query.
use muxr_core.Base.{
  ℕ, String, Option, none, some, Bool, true, false, not, ◌&&◌, List, [], ◌∷◌, ◌++◌, ◌==◌,
}
use muxr_core.Relay.Reader.{
  Turn, InFlightQuery, Answer, ServerMsg, render, log, event, other, exit, renamed_session,
  config_updated, switch_session, answer_of,
}

unfoldable pub is_none_left : List InFlightQuery → Bool
is_none_left [] = true
is_none_left (q ∷ qs) = false

-- The session sends something else than its end.
unfoldable pub goes_on : Option ServerMsg → Bool
goes_on none = false
goes_on (some (render content)) = true
goes_on (some (log json)) = true
goes_on (some (event (exit reason))) = false
goes_on (some (event (renamed_session name))) = true
goes_on (some (event config_updated)) = true
goes_on (some (event (switch_session name))) = true
goes_on (some other) = true

-- Nobody stops the thread or hands over a query, the session and the client are there, and the
-- reply is waited for.
unfoldable pub quiet : ℕ → Turn → Bool
unfolding is_none_left goes_on
quiet r t =
    not t.stop_before
    && not (t.closed_before r)
    && is_none_left t.queries_before
    && goes_on t.received
    && not t.stop_after
    && not (t.closed_after r)
    && is_none_left t.queries_after
    && not (t.closed_capture r)
    && not t.client_gone

unfoldable pub text_of : Option ServerMsg → List String
text_of none = []
text_of (some (log json)) = json ∷ []
text_of (some (render content)) = []
text_of (some (event e)) = []
text_of (some other) = []

-- The texts that the session sends.
unfoldable pub texts : List Turn → List String
unfolding text_of
texts [] = []
texts (t ∷ ts) = text_of t.received ++ texts ts

-- The answer that the texts make, when the query already has the first of the two or not.
unfoldable pub paired : ℕ → Option String → List String → List (ℕ × Answer)
unfolding answer_of
paired r tabs [] = []
paired r none (json ∷ js) = paired r (some json) js
paired r (some tabs) (json ∷ js) = (r, answer_of tabs json) ∷ []

unfoldable pub outcome : ℕ → Option InFlightQuery → List String → List (ℕ × Answer)
unfolding paired
outcome r none js = []
outcome r (some q) js = paired r q.tabs js

unfoldable pub mine : ℕ → Option InFlightQuery → Bool
mine r none = true
mine r (some q) = q.reply == r
