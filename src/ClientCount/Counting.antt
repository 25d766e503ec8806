-- ===== src/ClientCount/Counting.antt =====
-- The counters count the live guards.
use muxr_core.Base.{
  get_elem?, remove_at, All-get_elem?, All-remove_at, All-mono, ℕ, suc, ◌+◌, ◌-◌, ◌%◌, ◌≤◌, ◌<◌,
  String, ◌≡◌, refl, none, some, Option-cases, inl, inr, lookup, lookup-insert, insert,
  insert-Distinct, Distinct, nat_key, string_key, string_discrete, arith, List, [], ◌∷◌, length,
  All, ite, sym, Map, ℕ_discrete,
}
use muxr_core.ClientCount.{
  SessionClients, usize_mod, u32_mod, load, fetch_add, fetch_sub, counter_of, attach, drop_guard,
  count,
}
use muxr_core.ClientCount.Guards.{
  Guard, World, Event, starts, ends, start, finish, step, run, initial, live, live-le-length,
  live-remove_at, length-remove_at,
}

-- The counter of each session stands at an address of its own and holds the number of its live
-- guards.
pub record Inv (w : World) : Type 0 where
  pub distinct : Distinct w.clients.inner
  pub bounded : (s : String) (a : ℕ) → lookup s w.clients.inner ≡ some a → a < w.clients.next
  pub apart :
      (s t : String) (a : ℕ)
      → lookup s w.clients.inner ≡ some a
      → lookup t w.clients.inner ≡ some a
      → s ≡ t
  pub held : All (λ g. lookup g.session w.clients.inner ≡ some g.counter) w.guards
  pub counts :
      (s : String) (a : ℕ)
      → lookup s w.clients.inner ≡ some a
      → lookup a w.clients.cells ≡ some (live s w.guards)

pub initial-Inv : Inv initial
unfolding lookup
initial-Inv = record {
  distinct = tt;
  bounded = λ s a h. cc;
  apart = λ s t a h k. cc;
  held = tt;
  counts = λ s a h. cc;
}

-- A session without a counter has no guard.
live-none :
    (s : String) (m : SessionClients) (gs : List Guard)
    → All (λ g. lookup g.session m.inner ≡ some g.counter) gs
    → lookup s m.inner ≡ none
    → live s gs ≡ 0
unfolding live
live-none s m [] a h = refl
live-none s m (g ∷ gs) a h = ground (arith, a.0, live-none s m gs a.1 h)

-- Below the modulus the atomic operations do not wrap.
fetch_add_lem :
    (cells : Map ℕ ℕ) (a b n : ℕ)
    → lookup b cells ≡ some n
    → suc n < usize_mod
    → lookup a (fetch_add cells b) ≡ ite (ℕ_discrete a b) (some (suc n)) (lookup a cells)
unfolding fetch_add load
fetch_add_lem cells a b n h few =
    ground (arith, lookup-insert b a ((load cells b + 1) % usize_mod) cells)

fetch_sub_lem :
    (cells : Map ℕ ℕ) (a b n : ℕ)
    → lookup b cells ≡ some (suc n)
    → suc n < usize_mod
    → lookup a (fetch_sub cells b) ≡ ite (ℕ_discrete a b) (some n) (lookup a cells)
unfolding fetch_sub load
fetch_sub_lem cells a b n h few =
    ground (arith, lookup-insert b a ((load cells b + usize_mod - 1) % usize_mod) cells)

module _ (w : World) (v : Inv w) where
  finish-Inv :
      (n : ℕ) (g : Guard)
      → get_elem? w.guards n ≡ some g
      → length w.guards < usize_mod
      → Inv (record { clients = drop_guard w.clients g.counter; guards = remove_at n w.guards })
  unfolding drop_guard
  finish-Inv n g e few = record {
    distinct = v.distinct;
    bounded = v.bounded;
    apart = v.apart;
    held = All-remove_at _ n w.guards v.held;
    counts = λ s a h. ground (
      arith,
      hg,
      v.apart s g.session a,
      v.counts s a h,
      v.counts g.session g.counter hg,
      live-remove_at s n w.guards g e,
      live-remove_at g.session n w.guards g e,
      live-le-length g.session w.guards,
      fetch_sub_lem w.clients.cells a g.counter (live g.session (remove_at n w.guards)),
    );
  }
    where
      hg : lookup g.session w.clients.inner ≡ some g.counter
      hg =
          All-get_elem? (λ x. lookup x.session w.clients.inner ≡ some x.counter) n w.guards g e
            v.held

  start_known-Inv :
      (s : String) (a : ℕ)
      → lookup s w.clients.inner ≡ some a
      → suc (length w.guards) < usize_mod
      → Inv (record {
        clients = record w.clients { cells = fetch_add w.clients.cells a };
        guards = record { session = s; counter = a } ∷ w.guards;
      })
  unfolding live
  start_known-Inv s a h few = record {
    distinct = v.distinct;
    bounded = v.bounded;
    apart = v.apart;
    held = (h, v.held);
    counts = λ t b k. ground (
      arith,
      v.apart s t a,
      v.counts s a h,
      v.counts t b k,
      live-le-length s w.guards,
      fetch_add_lem w.clients.cells b a (live s w.guards),
    );
  }

  start_fresh-Inv :
      (s : String)
      → lookup s w.clients.inner ≡ none
      → suc (length w.guards) < usize_mod
      → Inv (record {
        clients = record {
          inner = insert s w.clients.next w.clients.inner;
          cells = fetch_add (insert w.clients.next 0 w.clients.cells) w.clients.next;
          next = suc w.clients.next;
        };
        guards = record { session = s; counter = w.clients.next } ∷ w.guards;
      })
  unfolding live
  start_fresh-Inv s h few = record {
    distinct = insert-Distinct s w.clients.next w.clients.inner v.distinct;
    bounded = λ t b k. ground (arith, inserted t, v.bounded t b);
    apart = λ t u b k l.
        ground (arith, inserted t, inserted u, v.bounded t b, v.bounded u b, v.apart t u b);
    held = (ground (arith, inserted s), All-mono _ _ w.guards kept v.held);
    counts = λ t b k. ground (
      arith,
      inserted t,
      v.bounded t b,
      v.counts t b,
      live-none s w.clients w.guards v.held h,
      lookup-insert next b 0 w.clients.cells,
      lookup-insert next next 0 w.clients.cells,
      fetch_add_lem (insert next 0 w.clients.cells) b next 0,
    );
  }
    where
      next : ℕ
      next = w.clients.next

      inserted :
          (t : String)
          → lookup t (insert s next w.clients.inner)
            ≡ ite (string_discrete t s) (some next) (lookup t w.clients.inner)
      inserted t = lookup-insert s t next w.clients.inner

      kept :
          (g : Guard)
          → lookup g.session w.clients.inner ≡ some g.counter
          → lookup g.session (insert s next w.clients.inner) ≡ some g.counter
      kept g k = ground (arith, inserted g.session)

start-Inv : (w : World) (s : String) → suc (length w.guards) < usize_mod → Inv w → Inv (start w s)
unfolding start attach counter_of
start-Inv w s few v = elim (Option-cases (lookup s w.clients.inner)) [
  | inl h ↦ rw (h, counter_of) (start_fresh-Inv w v s h few)
  | inr (a, h) ↦ rw (h, counter_of) (start_known-Inv w v s a h few)
]

step-Inv : (w : World) (e : Event) → suc (length w.guards) < usize_mod → Inv w → Inv (step w e)
unfolding step finish
step-Inv w (starts s) few v = start-Inv w s few v
step-Inv w (ends n) few v = elim (Option-cases (get_elem? w.guards n)) [
  | inl h ↦ rw (h, finish) v
  | inr (g, h) ↦ rw (h, finish) (finish-Inv w v n g h (omega arith))
]

length-step : (w : World) (e : Event) → length (step w e).guards ≤ suc (length w.guards)
unfolding step start finish
length-step w (starts s) = omega arith
length-step w (ends n) = elim (Option-cases (get_elem? w.guards n)) [
  | inl h ↦ rw (h, finish) (omega arith)
  | inr (g, h) ↦ rw (h, finish) (omega (arith, length-remove_at n w.guards g h))
]

pub run-Inv :
    (es : List Event) (w : World) → length w.guards + length es < usize_mod → Inv w → Inv (run w es)
run-Inv [] w few v = v
run-Inv (e ∷ es) w few v =
    run-Inv es (step w e) (omega (arith, length-step w e)) (step-Inv w e (omega arith) v)

length-run : (es : List Event) (w : World) → length (run w es).guards ≤ length w.guards + length es
length-run [] w = omega arith
length-run (e ∷ es) w = omega (arith, length-run es (step w e), length-step w e)

-- After any history of fewer than 2^32 attaches and drops, the count of a session is the number of
-- its guards that are still held.
pub count-run :
    (es : List Event) (s : String)
    → length es < u32_mod
    → count (run initial es).clients s ≡ live s (run initial es).guards
unfolding count load
count-run es s few =
    let w = run initial es in
    let v = run-Inv es initial (omega arith) initial-Inv in
    elim (Option-cases (lookup s w.clients.inner)) [
      | inl h ↦ rw (h, count) (sym (live-none s w.clients w.guards v.held h))
      | inr (a, h) ↦
          ground (arith, h, v.counts s a h, live-le-length s w.guards, length-run es initial)
    ]
