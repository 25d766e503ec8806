-- ===== src/Relay/Reader/Foretells.antt =====
-- The steps of muxrd/src/relay/reader.rs that hold, drop and answer a query, foretold from the signs.
use muxr_core.Base.{
  ℕ, ◌≡◌, refl, sym, ap, ◌∙◌, String, Option, none, some, List, [], ◌∷◌, ◌++◌, Bool-cases, inl, inr,
}
use mathlib.Core.List.{append_assoc}
use muxr_core.Relay.Reader.{
  Reader, Closed, InFlightQuery, Answer, answer_of, drop_query, retire, pick_up, drain_queries,
  capture, capture_held,
}
use muxr_core.Relay.Reader.Trace.{
  Sign, asked, looked, told, asked_all, heard, verdict, verdict_on, verdicts, answered, unanswered,
}

-- The verdicts that are still out: of the query that is held, and of those that come.
unfoldable pub due : Option InFlightQuery → List Sign → List (ℕ × Option Answer)
unfolding verdicts verdict_on
due none rest = verdicts rest
due (some q) rest = verdict_on q rest ∷ verdicts rest

-- What the thread will have done in the end when it is in that state and these signs come.
pub record Foretells (s : Reader) (xs : List Sign) (s' : Reader) (ys : List Sign) : Type 0 where
  pub answers :
      s.answers ++ answered (due s.in_flight xs) ≡ s'.answers ++ answered (due s'.in_flight ys)
  pub cancels :
      s.cancelled ++ unanswered (due s.in_flight xs)
      ≡ s'.cancelled ++ unanswered (due s'.in_flight ys)

pub then_Foretells :
    (s : Reader) (xs : List Sign) (s' : Reader) (ys : List Sign) (s'' : Reader) (zs : List Sign)
    → Foretells s xs s' ys
    → Foretells s' ys s'' zs
    → Foretells s xs s'' zs
then_Foretells s xs s' ys s'' zs f g = record {
  answers = f.answers ∙ g.answers;
  cancels = f.cancels ∙ g.cancels;
}

-- States that have done the same, with the same verdicts out.
pub same_due_at :
    (s s' : Reader) (xs ys : List Sign)
    → s'.answers ≡ s.answers
    → s'.cancelled ≡ s.cancelled
    → due s.in_flight xs ≡ due s'.in_flight ys
    → Foretells s xs s' ys
same_due_at s s' xs ys a c e = record {
  answers =
      ap (λ (vs : List (ℕ × Option Answer)). s.answers ++ answered vs) e
      ∙ ap (λ (bs : List (ℕ × Answer)). bs ++ answered (due s'.in_flight ys)) (sym a);
  cancels =
      ap (λ (vs : List (ℕ × Option Answer)). s.cancelled ++ unanswered vs) e
      ∙ ap (λ (rs : List ℕ). rs ++ unanswered (due s'.in_flight ys)) (sym c);
}

-- The same state, whose query has the same fate by both lists of signs.
pub same_due :
    (s : Reader) (xs ys : List Sign) → due s.in_flight xs ≡ due s.in_flight ys → Foretells s xs s ys
same_due s xs ys e = record {
  answers = ap (λ (vs : List (ℕ × Option Answer)). s.answers ++ answered vs) e;
  cancels = ap (λ (vs : List (ℕ × Option Answer)). s.cancelled ++ unanswered vs) e;
}

pub verdict-deaf : (tabs : Option String) → verdict tabs [] ≡ none
unfolding verdict
verdict-deaf none = refl
verdict-deaf (some tabs) = refl

-- A query that hears nothing more is dropped.
pub drop_held :
    (q : InFlightQuery) (s : Reader) (xs ys : List Sign)
    → s.in_flight ≡ some q
    → heard q.reply xs ≡ []
    → verdicts xs ≡ verdicts ys
    → Foretells s xs (drop_query (some q) s) ys
unfolding drop_query due verdict_on answered unanswered
drop_held q s xs ys e h k =
    let deaf : due s.in_flight xs ≡ (q.reply, none) ∷ verdicts ys =
      ap (λ (o : Option InFlightQuery). due o xs) e
      ∙ ap (λ (v : Option Answer). (q.reply, v) ∷ verdicts xs)
          (ap (verdict q.tabs) h ∙ verdict-deaf q.tabs)
      ∙ ap (λ (vs : List (ℕ × Option Answer)). (q.reply, none) ∷ vs) k in
    record {
      answers = ap (λ (vs : List (ℕ × Option Answer)). s.answers ++ answered vs) deaf;
      cancels =
          ap (λ (vs : List (ℕ × Option Answer)). s.cancelled ++ unanswered vs) deaf
          ∙ sym (append_assoc s.cancelled (q.reply ∷ []) (unanswered (verdicts ys)));
    }

pub drop-Foretells :
    (o : Option InFlightQuery) (s : Reader) (xs : List Sign)
    → s.in_flight ≡ o
    → ((r : ℕ) → heard r xs ≡ [])
    → Foretells s xs (drop_query o s) xs
unfolding drop_query
drop-Foretells none s xs e h =
    same_due_at s (record s { in_flight = none }) xs xs refl refl
      (ap (λ (o : Option InFlightQuery). due o xs) e)
drop-Foretells (some q) s xs e h = drop_held q s xs xs e (h q.reply) refl

pub drop-empty : (o : Option InFlightQuery) (s : Reader) → (drop_query o s).in_flight ≡ none
unfolding drop_query
drop-empty none s = refl
drop-empty (some q) s = refl

pub retire-Foretells :
    (closed : Closed) (o : Option InFlightQuery) (s : Reader) (xs : List Sign)
    → s.in_flight ≡ o
    → Foretells s (looked closed ∷ xs) (retire closed o s) xs
unfolding retire due verdicts verdict_on heard
retire-Foretells closed none s xs e = same_due s (looked closed ∷ xs) xs (
    ap (λ (o : Option InFlightQuery). due o (looked closed ∷ xs)) e
    ∙ sym (ap (λ (o : Option InFlightQuery). due o xs) e))
retire-Foretells closed (some q) s xs e = elim (Bool-cases (closed q.reply)) [
  | inl c ↦ rw (c) (drop_held q s (looked closed ∷ xs) xs e (rw (c) refl) refl)
  | inr c ↦ rw (c) (
      same_due s (looked closed ∷ xs) xs (
        ap (λ (o : Option InFlightQuery). due o (looked closed ∷ xs)) e
        ∙ rw (c) (sym (ap (λ (o : Option InFlightQuery). due o xs) e))))
]

-- A query takes its place where none is held.
pub hold-Foretells :
    (q : InFlightQuery) (s : Reader) (xs : List Sign)
    → s.in_flight ≡ none
    → Foretells s (asked q ∷ xs) (record s { in_flight = some q }) xs
unfolding due verdicts
hold-Foretells q s xs e =
    same_due_at s (record s { in_flight = some q }) (asked q ∷ xs) xs refl refl
      (ap (λ (o : Option InFlightQuery). due o (asked q ∷ xs)) e)

pub pick_up-Foretells :
    (qs : List InFlightQuery) (s : Reader) (xs : List Sign)
    → Foretells s (asked_all qs ++ xs) (pick_up qs s) xs
unfolding pick_up asked_all heard
pick_up-Foretells [] s xs = same_due s xs xs refl
pick_up-Foretells (q ∷ qs) s xs =
    let ys = asked_all qs ++ xs in
    let d = drop_query s.in_flight s in
    let t = record d { in_flight = some q } in
    then_Foretells s (asked q ∷ ys) d (asked q ∷ ys) (pick_up qs t) xs
      (drop-Foretells s.in_flight s (asked q ∷ ys) refl (λ r. refl))
      (then_Foretells d (asked q ∷ ys) t ys (pick_up qs t) xs
        (hold-Foretells q d ys (drop-empty s.in_flight s)) (pick_up-Foretells qs t xs))

pub drain_queries-Foretells :
    (closed : Closed) (qs : List InFlightQuery) (s : Reader) (xs : List Sign)
    → Foretells s (looked closed ∷ (asked_all qs ++ xs)) (drain_queries closed qs s) xs
unfolding drain_queries
drain_queries-Foretells closed qs s xs =
    let u = retire closed s.in_flight s in
    then_Foretells s (looked closed ∷ (asked_all qs ++ xs)) u (asked_all qs ++ xs) (pick_up qs u) xs
      (retire-Foretells closed s.in_flight s (asked_all qs ++ xs) refl) (pick_up-Foretells qs u xs)

pub verdict_first :
    (tabs : String) (js : List String) → verdict none (tabs ∷ js) ≡ verdict (some tabs) js
unfolding verdict
verdict_first tabs [] = refl
verdict_first tabs (panes ∷ js) = refl

pub due_held :
    (q : InFlightQuery) (s : Reader) (tabs : Option String) (xs : List Sign)
    → s.in_flight ≡ some q
    → q.tabs ≡ tabs
    → due s.in_flight xs ≡ (q.reply, verdict tabs (heard q.reply xs)) ∷ verdicts xs
unfolding due verdict_on
due_held q s tabs xs e k =
    ap (λ (o : Option InFlightQuery). due o xs) e
    ∙ ap (λ (o : Option String). (q.reply, verdict o (heard q.reply xs)) ∷ verdicts xs) k

pub capture-Foretells :
    (json : String) (q : InFlightQuery) (tabs : Option String) (s : Reader) (xs : List Sign)
    → s.in_flight ≡ some q
    → q.tabs ≡ tabs
    → Foretells s (told json ∷ xs) (capture json q tabs s) xs
unfolding capture due verdict_on verdicts heard verdict answered unanswered
capture-Foretells json q none s xs e k =
    same_due_at s (capture json q none s) (told json ∷ xs) xs refl refl (
      due_held q s none (told json ∷ xs) e k
      ∙ ap (λ (v : Option Answer). (q.reply, v) ∷ verdicts xs)
          (verdict_first json (heard q.reply xs)))
capture-Foretells json q (some tabs) s xs e k =
    let out = due_held q s (some tabs) (told json ∷ xs) e k in
    record {
      answers =
          ap (λ (vs : List (ℕ × Option Answer)). s.answers ++ answered vs) out
          ∙ sym (
              append_assoc s.answers ((q.reply, answer_of tabs json) ∷ [])
                (answered (verdicts xs)));
      cancels = ap (λ (vs : List (ℕ × Option Answer)). s.cancelled ++ unanswered vs) out;
    }

pub capture_held-Foretells :
    (closed : Closed) (json : String) (o : Option InFlightQuery) (s : Reader) (xs : List Sign)
    → s.in_flight ≡ o
    → Foretells s (looked closed ∷ told json ∷ xs) (capture_held closed json o s) xs
unfolding capture_held due verdicts verdict_on heard
capture_held-Foretells closed json none s xs e = same_due s (looked closed ∷ told json ∷ xs) xs (
    ap (λ (o : Option InFlightQuery). due o (looked closed ∷ told json ∷ xs)) e
    ∙ sym (ap (λ (o : Option InFlightQuery). due o xs) e))
capture_held-Foretells closed json (some q) s xs e = elim (Bool-cases (closed q.reply)) [
  | inl c ↦ rw (c) (drop_held q s (looked closed ∷ told json ∷ xs) xs e (rw (c) refl) refl)
  | inr c ↦ rw (c) (
      then_Foretells s (looked closed ∷ told json ∷ xs) s (told json ∷ xs) (capture json q q.tabs s)
        xs
        (same_due s (looked closed ∷ told json ∷ xs) (told json ∷ xs) (
          ap (λ (o : Option InFlightQuery). due o (looked closed ∷ told json ∷ xs)) e
          ∙ rw (c) (sym (ap (λ (o : Option InFlightQuery). due o (told json ∷ xs)) e))))
        (capture-Foretells json q q.tabs s xs e refl))
]
