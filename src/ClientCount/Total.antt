-- ===== src/ClientCount/Total.antt =====
-- The total over all sessions.
use muxr_core.Base.{
  ℕ, suc, ◌+◌, ◌<◌, String, ◌≡◌, refl, ◌∙◌, none, some, lookup, Distinct, nat_key, string_key,
  arith, List, [], ◌∷◌, length, All, Map,
}
use muxr_core.ClientCount.{SessionClients, usize_mod, load, sum_loads, total_count}
use muxr_core.ClientCount.Guards.{Guard, Event, run, initial, live}
use muxr_core.ClientCount.Counting.{initial-Inv, run-Inv}

-- The loads of the counters of a part of the map, as numbers of guards.
sum_live : List Guard → Map String ℕ → ℕ
sum_live gs [] = 0
sum_live gs ((s, a) ∷ m) = live s gs + sum_live gs m

sum_loads-live :
    (cells : Map ℕ ℕ) (gs : List Guard) (m : Map String ℕ)
    → Distinct m
    → ((s : String) (a : ℕ) → lookup s m ≡ some a → lookup a cells ≡ some (live s gs))
    → sum_loads cells m ≡ sum_live gs m
unfolding sum_loads sum_live load lookup
sum_loads-live cells gs [] d f = refl
sum_loads-live cells gs ((s, a) ∷ m) d f =
    ground (arith, f s a, sum_loads-live cells gs m d.1 (λ t b h. f t b (ground (arith, d.0, h))))

sum_live-nil : (m : Map String ℕ) → sum_live [] m ≡ 0
unfolding sum_live live
sum_live-nil [] = refl
sum_live-nil ((s, a) ∷ m) = omega (arith, sum_live-nil m)

sum_live_absent :
    (g : Guard) (gs : List Guard) (m : Map String ℕ)
    → lookup g.session m ≡ none
    → sum_live (g ∷ gs) m ≡ sum_live gs m
unfolding sum_live live lookup
sum_live_absent g gs [] h = refl
sum_live_absent g gs ((s, a) ∷ m) h = ground (arith, sum_live_absent g gs m)

sum_live_present :
    (g : Guard) (gs : List Guard) (m : Map String ℕ) (a : ℕ)
    → Distinct m
    → lookup g.session m ≡ some a
    → sum_live (g ∷ gs) m ≡ suc (sum_live gs m)
unfolding sum_live live lookup
sum_live_present g gs [] a d h = cc
sum_live_present g gs ((s, b) ∷ m) a d h =
    ground (arith, d.0, sum_live_absent g gs m, sum_live_present g gs m a d.1)

sum_live-length :
    (c : SessionClients) (gs : List Guard)
    → Distinct c.inner
    → All (λ g. lookup g.session c.inner ≡ some g.counter) gs
    → sum_live gs c.inner ≡ length gs
sum_live-length c [] d h = sum_live-nil c.inner
sum_live-length c (g ∷ gs) d h =
    omega (arith, sum_live_present g gs c.inner g.counter d h.0, sum_live-length c gs d h.1)

-- After any history of fewer than 2^64 attaches and drops, the total is the number of all guards
-- that are still held.
pub total_count-run :
    (es : List Event)
    → length es < usize_mod
    → total_count (run initial es).clients ≡ length (run initial es).guards
unfolding total_count
total_count-run es few =
    let w = run initial es in
    let v = run-Inv es initial (omega arith) initial-Inv in
    sum_loads-live w.clients.cells w.guards w.clients.inner v.distinct v.counts
    ∙ sum_live-length w.clients w.guards v.distinct v.held
