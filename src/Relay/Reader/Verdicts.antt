-- ===== src/Relay/Reader/Verdicts.antt =====
-- The thread of muxrd/src/relay/reader.rs answers and cancels the queries as their verdicts say.
use muxr_core.Base.{
  ℕ, suc, ◌≡◌, refl, sym, ap, ◌∙◌, String, Option, none, some, Bool, true, false, not, List, [],
  ◌∷◌, ◌++◌, if◌then◌else◌, subst, Bool-cases, inl, inr,
}
use mathlib.Core.List.{append-nil}
use muxr_core.Relay.Reader.{
  Reader, Turn, InFlightQuery, Answer, ServerMsg, render, log, event, other, SessionEvent, exit,
  renamed_session, config_updated, switch_session, render_frame, initial, drop_query, drain_queries,
  capture_query_log, send, send_control, on_event, on_message, after_recv, render_turn, next_turn,
  render_loop,
}
use muxr_core.Relay.Reader.Trace.{
  Sign, looked, asked_all, told_by, event_lasts, lasts, signs_after, signs, trace, heard, verdicts,
  answered, unanswered,
}
use muxr_core.Relay.Reader.Foretells.{
  due, Foretells, then_Foretells, same_due_at, same_due, drop-Foretells, drop-empty,
  drain_queries-Foretells, capture_held-Foretells,
}

-- The loop goes on as the signs say, and what it will have done stays what was foretold.
record Follows (s : Reader) (xs : List Sign) (lasting : Bool) (x : Reader × Bool) (ys : List Sign)
    : Type 0 where
  going : x.1 ≡ lasting
  foretold : Foretells s xs x.0 ys

frame-Foretells :
    (s s' : Reader) (xs : List Sign)
    → s'.answers ≡ s.answers
    → s'.cancelled ≡ s.cancelled
    → s'.in_flight ≡ s.in_flight
    → Foretells s xs s' xs
frame-Foretells s s' xs a c e =
    same_due_at s s' xs xs a c (ap (λ (o : Option InFlightQuery). due o xs) (sym e))

send_control-Follows :
    (gone : Bool) (kind payload : String) (s : Reader) (xs : List Sign)
    → Follows s xs (not gone) (send_control gone kind payload s) xs
unfolding send_control send
send_control-Follows true kind payload s xs = record {
  going = refl;
  foretold = frame-Foretells s s xs refl refl refl;
}
send_control-Follows false kind payload s xs = record {
  going = refl;
  foretold = frame-Foretells s (send_control false kind payload s).0 xs refl refl refl;
}

ending : (s : Reader) → Foretells s [] (drop_query s.in_flight s) []
unfolding heard
ending s = drop-Foretells s.in_flight s [] refl (λ r. refl)

on_event-Follows :
    (gone : Bool) (e : SessionEvent) (s : Reader) (xs : List Sign)
    → let ys = if event_lasts gone e then xs else [] in
      Follows s ys (event_lasts gone e) (on_event gone e s) ys
unfolding on_event event_lasts
on_event-Follows gone (exit reason) s xs =
    let d = drop_query s.in_flight s in
    record {
      going = refl;
      foretold =
          then_Foretells s [] d [] (send_control gone "exit" reason d).0 [] (ending s)
            (send_control-Follows gone "exit" reason d []).foretold;
    }
on_event-Follows gone (renamed_session name) s xs =
    send_control-Follows gone "renamed_session" name s (if not gone then xs else [])
on_event-Follows gone config_updated s xs =
    send_control-Follows gone "config_updated" "" s (if not gone then xs else [])
on_event-Follows gone (switch_session name) s xs =
    send_control-Follows gone "switch_session" name s (if not gone then xs else [])

on_message-Follows :
    (t : Turn) (m : ServerMsg) (s : Reader) (xs : List Sign)
    → let ys = if lasts t.client_gone m then xs else [] in
      Follows s (told_by t.closed_capture m ++ ys) (lasts t.client_gone m) (on_message t m s) ys
unfolding on_message lasts told_by capture_query_log send
on_message-Follows t (render content) s xs = elim (Bool-cases t.client_gone) [
  | inl g ↦ rw (g) (record { going = refl; foretold = ending s })
  | inr g ↦ rw (g) (record {
    going = refl;
    foretold =
        let sent = send (render_frame content) s in
        frame-Foretells s (record sent { renders = suc sent.renders }) xs refl refl refl;
  })
]
on_message-Follows t (log json) s xs = record {
  going = refl;
  foretold = capture_held-Foretells t.closed_capture json s.in_flight s xs refl;
}
on_message-Follows t (event e) s xs = on_event-Follows t.client_gone e s xs
on_message-Follows t other s xs = record {
  going = refl;
  foretold = frame-Foretells s s xs refl refl refl;
}

-- The signs of a turn, and after them those of the next turns if there are any.
abbrev Turned : Reader → List Sign → Reader × Bool → List Sign → Type 0
Turned s zs x xs = Foretells s zs x.0 (if x.1 then xs else [])

on_message-Turned :
    (t : Turn) (m : ServerMsg) (s : Reader) (xs : List Sign)
    → Turned s
        (told_by t.closed_capture m ++ (if lasts t.client_gone m then xs else []))
        (on_message t m s)
        xs
on_message-Turned t m s xs =
    let f = on_message-Follows t m s xs in
    let zs = told_by t.closed_capture m ++ (if lasts t.client_gone m then xs else []) in
    subst (λ (b : Bool). Foretells s zs (on_message t m s).0 (if b then xs else [])) (sym f.going)
      f.foretold

after_recv-Turned :
    (t : Turn) (o : Option ServerMsg) (s : Reader) (xs : List Sign)
    → Turned s (signs_after t o xs) (after_recv t o s) xs
unfolding after_recv signs_after
after_recv-Turned t none s xs = ending s
after_recv-Turned t (some m) s xs = elim (Bool-cases t.stop_after) [
  | inl e ↦ rw (e) (ending s)
  | inr e ↦ rw (e) (
      let d = drain_queries t.closed_after t.queries_after s in
      let zs = told_by t.closed_capture m ++ (if lasts t.client_gone m then xs else []) in
      let x = on_message t m d in
      then_Foretells s (looked t.closed_after ∷ (asked_all t.queries_after ++ zs)) d zs x.0
        (if x.1 then xs else []) (drain_queries-Foretells t.closed_after t.queries_after s zs)
        (on_message-Turned t m d xs))
]

render_turn-Turned :
    (t : Turn) (s : Reader) (xs : List Sign) → Turned s (signs t xs) (render_turn t s) xs
unfolding render_turn signs
render_turn-Turned t s xs = elim (Bool-cases t.stop_before) [
  | inl e ↦ rw (e) (same_due s [] [] refl)
  | inr e ↦ rw (e) (
      let d = drain_queries t.closed_before t.queries_before s in
      let zs = signs_after t t.received xs in
      let x = after_recv t t.received d in
      then_Foretells s (looked t.closed_before ∷ (asked_all t.queries_before ++ zs)) d zs x.0
        (if x.1 then xs else []) (drain_queries-Foretells t.closed_before t.queries_before s zs)
        (after_recv-Turned t t.received d xs))
]

next_turn-Foretells :
    (s : Reader) (zs : List Sign) (x rest : Reader × Bool) (xs : List Sign)
    → Turned s zs x xs
    → Foretells x.0 xs rest.0 []
    → Foretells s zs (next_turn x rest).0 []
unfolding next_turn
next_turn-Foretells s zs (s', true) rest xs f g = then_Foretells s zs s' xs rest.0 [] f g
next_turn-Foretells s zs (s', false) rest xs f g =
    then_Foretells s zs s' [] (drop_query s'.in_flight s') [] f (ending s')

render_loop-Foretells :
    (ts : List Turn) (s : Reader) → Foretells s (trace ts) (render_loop ts s).0 []
unfolding render_loop trace
render_loop-Foretells [] s = same_due s [] [] refl
render_loop-Foretells (t ∷ ts) s =
    let x = render_turn t s in
    next_turn-Foretells s (signs t (trace ts)) x (render_loop ts x.0) (trace ts)
      (render_turn-Turned t s (trace ts)) (render_loop-Foretells ts x.0)

next_turn-empty :
    (x rest : Reader × Bool)
    → (rest.1 ≡ false → rest.0.in_flight ≡ none)
    → (next_turn x rest).1 ≡ false
    → (next_turn x rest).0.in_flight ≡ none
unfolding next_turn
next_turn-empty (s, true) rest k h = k h
next_turn-empty (s, false) rest k h = drop-empty s.in_flight s

render_loop-empty :
    (ts : List Turn) (s : Reader)
    → (render_loop ts s).1 ≡ false
    → (render_loop ts s).0.in_flight ≡ none
unfolding render_loop
render_loop-empty [] s h = cc
render_loop-empty (t ∷ ts) s h =
    next_turn-empty (render_turn t s) (render_loop ts (render_turn t s).0)
      (render_loop-empty ts (render_turn t s).0) h

no_due : (s : Reader) → s.in_flight ≡ none → due s.in_flight [] ≡ []
unfolding due verdicts
no_due s e = ap (λ (o : Option InFlightQuery). due o []) e

-- Once the loop has ended, exactly those queries were answered, in the order of their coming, for
-- which two texts came (one that a query brings with it counts) before the next query, before the
-- thread saw that the caller had gone, and before the end: with the first of them as that of the
-- tabs and the second as that of the panes. Every other query that was taken over was cancelled,
-- once.
pub render_loop-verdicts :
    (ts : List Turn)
    → let (s, going) = render_loop ts initial in
      going ≡ false
      → (s.answers ≡ answered (verdicts (trace ts)))
        × (s.cancelled ≡ unanswered (verdicts (trace ts)))
unfolding due answered unanswered
render_loop-verdicts ts h =
    let f = render_loop-Foretells ts initial in
    let s = (render_loop ts initial).0 in
    let e = no_due s (render_loop-empty ts initial h) in
    (
      sym (append-nil s.answers)
          ∙ sym (ap (λ (vs : List (ℕ × Option Answer)). s.answers ++ answered vs) e)
          ∙ sym f.answers,
      sym (append-nil s.cancelled)
          ∙ sym (ap (λ (vs : List (ℕ × Option Answer)). s.cancelled ++ unanswered vs) e)
          ∙ sym f.cancels,
    )
