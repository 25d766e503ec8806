-- ===== src/Relay/Reader/Pairing.antt =====
-- A query that the thread of muxrd/src/relay/reader.rs holds is answered with the two texts that
-- follow, in their order.
use muxr_core.Base.{
  ℕ, suc, ◌≡◌, refl, sym, subst, ap, ◌∙◌, String, Option, none, some, Bool, true, false, List, [],
  ◌∷◌, ◌++◌, if◌then◌else◌, arith, all, ◌==◌,
}
use mathlib.Core.List.{append-nil}
use muxr_core.Relay.Reader.{
  Reader, Turn, Closed, InFlightQuery, Answer, ServerMsg, render, log, event, other, exit,
  renamed_session, config_updated, switch_session, drop_query, retire, pick_up, drain_queries,
  capture, capture_held, capture_query_log, send, send_control, on_event, on_message, after_recv,
  render_turn, next_turn, render_loop, answer_of, render_frame, control_frame,
}
use muxr_core.Relay.Reader.Quiet.{
  is_none_left, goes_on, quiet, text_of, texts, paired, outcome, mine,
}

-- The loop goes on, holds the same query or none, and has done what the texts make of it.
record Steady (r : ℕ) (s : Reader) (js : List String) (x : Reader × Bool) : Type 0 where
  going : x.1 ≡ true
  held : mine r x.0.in_flight ≡ true
  made :
      (ks : List String)
      → x.0.answers ++ outcome r x.0.in_flight ks ≡ s.answers ++ outcome r s.in_flight (js ++ ks)

retire-quiet :
    (r : ℕ) (closed : Closed) (o : Option InFlightQuery) (s : Reader)
    → mine r o ≡ true
    → closed r ≡ false
    → retire closed o s ≡ s
unfolding retire mine
retire-quiet r closed none s h k = refl
retire-quiet r closed (some q) s h k = ground (arith, h, k, ap closed)

drain-quiet :
    (r : ℕ) (closed : Closed) (qs : List InFlightQuery) (s : Reader)
    → mine r s.in_flight ≡ true
    → closed r ≡ false
    → is_none_left qs ≡ true
    → drain_queries closed qs s ≡ s
unfolding drain_queries pick_up is_none_left
drain-quiet r closed [] s h k n = retire-quiet r closed s.in_flight s h k
drain-quiet r closed (q ∷ qs) s h k n = cc

outcome-held :
    (r : ℕ) (s : Reader) (q : InFlightQuery) (tabs : Option String) (js : List String)
    → s.in_flight ≡ some q
    → q.tabs ≡ tabs
    → outcome r s.in_flight js ≡ paired r tabs js
unfolding outcome
outcome-held r s q tabs js e k =
    ap (λ (o : Option InFlightQuery). outcome r o js) e
    ∙ ap (λ (t : Option String). paired r t js) k

open_capture :
    (r : ℕ) (closed : Closed) (json : String) (q : InFlightQuery) (s : Reader)
    → mine r (some q) ≡ true
    → closed r ≡ false
    → capture json q q.tabs s ≡ capture_held closed json (some q) s
unfolding capture_held mine
open_capture r closed json q s h k = ground (arith, h, k, ap closed)

capture-Steady :
    (r : ℕ) (json : String) (q : InFlightQuery) (tabs : Option String) (s : Reader)
    → s.in_flight ≡ some q
    → q.tabs ≡ tabs
    → mine r (some q) ≡ true
    → Steady r s (json ∷ []) (capture json q tabs s, true)
unfolding capture mine outcome paired
capture-Steady r json q none s e k h = record {
  going = refl;
  held = h;
  made = λ ks.
      ap (λ (bs : List (ℕ × Answer)). s.answers ++ bs)
        (sym (outcome-held r s q none (json ∷ ks) e k));
}
capture-Steady r json q (some tabs) s e k h = record {
  going = refl;
  held = refl;
  made = λ ks.
      append-nil (s.answers ++ ((q.reply, answer_of tabs json) ∷ []))
      ∙ ap (λ (bs : List (ℕ × Answer)). s.answers ++ bs)
          (ap (λ (n : ℕ). (n, answer_of tabs json) ∷ []) (ground arith)
            ∙ sym (outcome-held r s q (some tabs) (json ∷ ks) e k));
}

same-Steady :
    (r : ℕ) (s s' : Reader)
    → mine r s.in_flight ≡ true
    → s'.in_flight ≡ s.in_flight
    → s'.answers ≡ s.answers
    → Steady r s [] (s', true)
same-Steady r s s' h e k = record {
  going = refl;
  held = ap (mine r) e ∙ h;
  made = λ ks.
      ap (λ (bs : List (ℕ × Answer)). bs ++ outcome r s'.in_flight ks) k
      ∙ ap (λ (o : Option InFlightQuery). s.answers ++ outcome r o ks) e;
}

capture_held-Steady :
    (r : ℕ) (closed : Closed) (json : String) (o : Option InFlightQuery) (s : Reader)
    → s.in_flight ≡ o
    → mine r o ≡ true
    → closed r ≡ false
    → Steady r s (json ∷ []) (capture_held closed json o s, true)
unfolding capture_held mine outcome
capture_held-Steady r closed json none s e h k = record {
  going = refl;
  held = ap (mine r) e;
  made = λ ks.
      ap (λ (o : Option InFlightQuery). s.answers ++ outcome r o ks) e
      ∙ sym (ap (λ (o : Option InFlightQuery). s.answers ++ outcome r o (json ∷ ks)) e);
}
capture_held-Steady r closed json (some q) s e h k =
    subst (λ (s' : Reader). Steady r s (json ∷ []) (s', true)) (open_capture r closed json q s h k)
      (capture-Steady r json q q.tabs s e refl h)

send_control-Steady :
    (r : ℕ) (gone : Bool) (kind payload : String) (s : Reader)
    → gone ≡ false
    → mine r s.in_flight ≡ true
    → Steady r s [] (send_control gone kind payload s)
unfolding send_control send
send_control-Steady r true kind payload s e h = cc
send_control-Steady r false kind payload s e h =
    same-Steady r s (send (control_frame kind payload) s) h refl refl

on_message-Steady :
    (r : ℕ) (t : Turn) (m : ServerMsg) (s : Reader)
    → mine r s.in_flight ≡ true
    → goes_on (some m) ≡ true
    → t.closed_capture r ≡ false
    → t.client_gone ≡ false
    → Steady r s (text_of (some m)) (on_message t m s)
unfolding on_message goes_on text_of capture_query_log on_event send
on_message-Steady r t (render content) s h g k gone =
    subst
      (λ (b : Bool). Steady r s [] (
        if b
        then (drop_query s.in_flight s, false)
        else (record (send (render_frame content) s) { renders = suc s.renders }, true)))
      (sym gone)
      (same-Steady r s (record (send (render_frame content) s) { renders = suc s.renders }) h refl
        refl)
on_message-Steady r t (log json) s h g k gone =
    capture_held-Steady r t.closed_capture json s.in_flight s refl h k
on_message-Steady r t (event (exit reason)) s h g k gone = cc
on_message-Steady r t (event (renamed_session name)) s h g k gone =
    send_control-Steady r t.client_gone "renamed_session" name s gone h
on_message-Steady r t (event config_updated) s h g k gone =
    send_control-Steady r t.client_gone "config_updated" "" s gone h
on_message-Steady r t (event (switch_session name)) s h g k gone =
    send_control-Steady r t.client_gone "switch_session" name s gone h
on_message-Steady r t other s h g k gone = same-Steady r s s h refl refl

after_recv-Steady :
    (r : ℕ) (t : Turn) (o : Option ServerMsg) (s : Reader)
    → mine r s.in_flight ≡ true
    → goes_on o ≡ true
    → t.stop_after ≡ false
    → t.closed_after r ≡ false
    → is_none_left t.queries_after ≡ true
    → t.closed_capture r ≡ false
    → t.client_gone ≡ false
    → Steady r s (text_of o) (after_recv t o s)
unfolding after_recv goes_on
after_recv-Steady r t none s h g a c n k gone = cc
after_recv-Steady r t (some m) s h g a c n k gone =
    let d = drain-quiet r t.closed_after t.queries_after s h c n in
    subst
      (λ (b : Bool). Steady r s (text_of (some m)) (
        if b
        then (drop_query s.in_flight s, false)
        else on_message t m (drain_queries t.closed_after t.queries_after s)))
      (sym a)
      (subst (λ (s' : Reader). Steady r s (text_of (some m)) (on_message t m s')) (sym d)
        (on_message-Steady r t m s h g k gone))

render_turn-Steady :
    (r : ℕ) (t : Turn) (s : Reader)
    → mine r s.in_flight ≡ true
    → quiet r t ≡ true
    → Steady r s (text_of t.received) (render_turn t s)
unfolding render_turn quiet
render_turn-Steady r t s h w =
    let up : false ≡ t.stop_before = ground arith in
    let d = drain-quiet r t.closed_before t.queries_before s h (ground arith) (ground arith) in
    subst
      (λ (b : Bool). Steady r s (text_of t.received) (
        if b
        then (s, false)
        else after_recv t t.received (drain_queries t.closed_before t.queries_before s)))
      up
      (subst (λ (s' : Reader). Steady r s (text_of t.received) (after_recv t t.received s')) (sym d)
        (after_recv-Steady r t t.received s h (ground arith) (ground arith) (ground arith)
          (ground arith) (ground arith) (ground arith)))

next_turn-going : (x rest : Reader × Bool) → x.1 ≡ true → next_turn x rest ≡ rest
unfolding next_turn
next_turn-going (s, true) rest h = refl
next_turn-going (s, false) rest h = cc

render_loop-made :
    (r : ℕ) (ts : List Turn) (s : Reader)
    → mine r s.in_flight ≡ true
    → all (quiet r) ts ≡ true
    → (render_loop ts s).0.answers ++ outcome r (render_loop ts s).0.in_flight []
      ≡ s.answers ++ outcome r s.in_flight (texts ts)
unfolding render_loop texts
render_loop-made r [] s h w = refl
render_loop-made r (t ∷ ts) s h w =
    let x = render_turn t s in
    let v = render_turn-Steady r t s h (ground arith) in
    ap (λ (y : Reader × Bool). y.0.answers ++ outcome r y.0.in_flight [])
      (next_turn-going x (render_loop ts x.0) v.going)
    ∙ render_loop-made r ts x.0 v.held (ground arith)
    ∙ v.made (texts ts)

outcome-nil : (r : ℕ) (o : Option InFlightQuery) → outcome r o [] ≡ []
unfolding outcome paired
outcome-nil r none = refl
outcome-nil r (some q) = paired-nil q.tabs
  where
    paired-nil : (tabs : Option String) → paired r tabs [] ≡ []
    paired-nil none = refl
    paired-nil (some t) = refl

-- While nobody else asks, stops the thread or goes away, a query that is held and has no text yet
-- is answered exactly once two texts have come: with the first of them as that of the tabs and the
-- second as that of the panes. Before that nothing is answered, and afterwards nothing more.
pub render_loop-paired :
    (q : InFlightQuery) (ts : List Turn) (s : Reader)
    → s.in_flight ≡ some q
    → q.tabs ≡ none
    → all (quiet q.reply) ts ≡ true
    → (render_loop ts s).0.answers ≡ s.answers ++ paired q.reply none (texts ts)
unfolding mine
render_loop-paired q ts s e k w =
    sym (append-nil (render_loop ts s).0.answers)
    ∙ ap (λ (bs : List (ℕ × Answer)). (render_loop ts s).0.answers ++ bs)
        (sym (outcome-nil q.reply (render_loop ts s).0.in_flight))
    ∙ render_loop-made q.reply ts s (ap (mine q.reply) e ∙ own q.reply) w
    ∙ ap (λ (bs : List (ℕ × Answer)). s.answers ++ bs)
        (outcome-held q.reply s q none (texts ts) e k)
  where
    own : (n : ℕ) → (n == n) ≡ true
    own n = ground arith
