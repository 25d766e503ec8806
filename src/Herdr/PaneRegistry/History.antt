-- ===== src/Herdr/PaneRegistry/History.antt =====
-- The pane registry over any history of calls.
use muxr_core.Base.{
  is_empty_str, true, not, ℕ, suc, ◌+◌, ◌≤◌, ◌<◌, String, ◌≡◌, some, nat_key, string_key, arith,
  List, [], ◌∷◌, length,
}
use muxr_core.Herdr.PaneRegistry.{
  PaneInner, new, u32_mod, assign_or_get, assign_or_get_keep_terminal, id_for_herdr_pane,
}
use muxr_core.Herdr.PaneRegistry.Invariant.{
  Inv, new-Inv, assign_or_get_inner-Inv, next_id-assign_or_get_inner, assign_or_get_inner_stable,
}

-- The two ways in which the backend registers a pane.
pub data Call : Type 0 where
  layout : String → String → Call
  agent : String → String → Call

pub step : PaneInner → Call → PaneInner
unfolding assign_or_get assign_or_get_keep_terminal
step r (layout pane terminal) = (assign_or_get r pane terminal).0
step r (agent pane terminal) = (assign_or_get_keep_terminal r pane terminal).0

unfoldable pub run : PaneInner → List Call → PaneInner
unfolding step
run r [] = r
run r (c ∷ cs) = run (step r c) cs

step-Inv : (r : PaneInner) (c : Call) → suc r.next_id < u32_mod → Inv r → Inv (step r c)
unfolding step assign_or_get assign_or_get_keep_terminal
step-Inv r (layout pane terminal) room v = assign_or_get_inner-Inv r pane terminal true room v
step-Inv r (agent pane terminal) room v =
    assign_or_get_inner-Inv r pane terminal (not (is_empty_str terminal)) room v

next_id-step : (r : PaneInner) (c : Call) → (step r c).next_id ≤ suc r.next_id
unfolding step assign_or_get assign_or_get_keep_terminal
next_id-step r (layout pane terminal) = next_id-assign_or_get_inner r pane terminal true
next_id-step r (agent pane terminal) =
    next_id-assign_or_get_inner r pane terminal (not (is_empty_str terminal))

run_from-Inv :
    (cs : List Call) (r : PaneInner) → r.next_id + length cs < u32_mod → Inv r → Inv (run r cs)
unfolding run
run_from-Inv [] r room v = v
run_from-Inv (c ∷ cs) r room v =
    run_from-Inv cs (step r c) (omega (arith, next_id-step r c)) (step-Inv r c (omega arith) v)

-- After any history of fewer than 2^32 - 1 calls the two maps are inverse to one another, and every
-- id given is at least `first_id` and below `next_id`, which has not wrapped.
pub run-Inv : (cs : List Call) → length cs + 1 < u32_mod → Inv (run new cs)
run-Inv cs room = run_from-Inv cs new (omega arith) new-Inv

step_stable :
    (r : PaneInner) (c : Call) (pane : String) (id : ℕ)
    → id_for_herdr_pane r pane ≡ some id
    → id_for_herdr_pane (step r c) pane ≡ some id
unfolding step assign_or_get assign_or_get_keep_terminal
step_stable r (layout p t) pane id h = assign_or_get_inner_stable r p t true pane id h
step_stable r (agent p t) pane id h =
    assign_or_get_inner_stable r p t (not (is_empty_str t)) pane id h

-- An id once given to a pane stays the pane's id over every later history, of any length.
pub run_stable :
    (cs : List Call) (r : PaneInner) (pane : String) (id : ℕ)
    → id_for_herdr_pane r pane ≡ some id
    → id_for_herdr_pane (run r cs) pane ≡ some id
unfolding run
run_stable [] r pane id h = h
run_stable (c ∷ cs) r pane id h = run_stable cs (step r c) pane id (step_stable r c pane id h)
