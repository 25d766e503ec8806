-- ===== src/Tests/Readers.antt =====
-- muxrd/src/relay/reader.rs: the thread at one query and a few messages.
use muxr_core.Base.{◌≡◌, refl, none, some, false, List, [], ◌∷◌, ◌++◌}
use muxr_core.Relay.Reader.{
  Reader, Turn, InFlightQuery, ServerMsg, log, other, event, exit, render_loop, initial, parsed,
}
use muxr_core.Relay.Reader.Trace.{trace, verdicts, answered, unanswered}
use muxr_core.Relay.Reader.Verdicts.{render_loop-verdicts}
use muxr_core.Relay.Reader.Pairing.{render_loop-paired}
use muxr_core.Relay.Reader.Quiet.{paired, texts, quiet}

abbrev query : InFlightQuery
query = record { seq = 0; reply = 5; tabs = none }

abbrev later_query : InFlightQuery
later_query = record { seq = 1; reply = 6; tabs = none }

abbrev calm : ServerMsg → Turn
calm m = record {
  stop_before = false;
  closed_before = λ r. false;
  queries_before = [];
  received = some m;
  stop_after = false;
  closed_after = λ r. false;
  queries_after = [];
  closed_capture = λ r. false;
  client_gone = false;
}

abbrev turns : List Turn
turns =
    record (calm (log "tabs")) { queries_before = query ∷ [] }
    ∷ calm (log "panes")
    ∷ record (calm other) { queries_after = later_query ∷ [] }
    ∷ calm (event (exit "done"))
    ∷ []

render_loop-answers : (render_loop turns initial).0.answers ≡ (5, parsed "tabs" "panes") ∷ []
unfolding render_loop
render_loop-answers = refl

render_loop-cancels : (render_loop turns initial).0.cancelled ≡ 6 ∷ []
unfolding render_loop
render_loop-cancels = refl

render_loop-verdicts_example :
    let s = (render_loop turns initial).0 in
    (s.answers ≡ answered (verdicts (trace turns)))
    × (s.cancelled ≡ unanswered (verdicts (trace turns)))
unfolding render_loop
render_loop-verdicts_example = render_loop-verdicts turns refl

abbrev waits : Reader
waits = record initial { in_flight = some query }

abbrev two_texts : List Turn
two_texts = calm other ∷ calm (log "tabs") ∷ calm (log "panes") ∷ []

render_loop-paired_example :
    (render_loop two_texts waits).0.answers ≡ waits.answers ++ paired 5 none (texts two_texts)
unfolding quiet
render_loop-paired_example = render_loop-paired query two_texts waits refl refl refl
