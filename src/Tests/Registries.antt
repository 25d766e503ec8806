-- ===== src/Tests/Registries.antt =====
-- muxrd/src/multiplexer/herdr/registry.rs and muxrd/src/client_count.rs.
use text.Mathlib.TextEquality.{eq_iff}
use muxr_core.Base.{
  get_elem?, remove_at, ◌-◌, ◌≡◌, ◌≢◌, refl, some, String, List, [], ◌∷◌, arith, string_discrete,
  ℕ_discrete, lookup, insert,
}
use muxr_core.ClientCount.{count, attach, drop_guard}
use muxr_core.ClientCount.Counting.{count-run}
use muxr_core.ClientCount.Guards.{Event, starts, ends, live, run as run_events, step, initial}
use muxr_core.Herdr.PaneRegistry.{
  PaneInner, new, assign_or_get, herdr_pane_id, terminal_id, id_for_herdr_pane, u32_mod,
}
use muxr_core.Herdr.PaneRegistry.History.{Call, layout, agent, run, run-Inv, run_stable}
use muxr_core.Herdr.PaneRegistry.Invariant.{Inv}
use muxr_core.Herdr.PaneRegistry.Resolve.{assign_or_get_resolves, exhausted_alias}
use muxr_core.Herdr.TabRegistry
use muxr_core.Herdr.TabRegistry.Invariant.{assign_tab_resolves}

abbrev calls : List Call
calls = layout "w1:p1" "t1" ∷ agent "w1:p2" "" ∷ layout "w1:p2" "t2" ∷ agent "w1:p2" "" ∷ []

calls-run : terminal_id (run new calls) 2 ≡ some "t2"
unfolding run terminal_id lookup insert string_discrete ℕ_discrete
calls-run = refl

run-Inv_example : Inv (run new calls)
run-Inv_example = run-Inv calls (omega arith)

run_stable_example : id_for_herdr_pane (run (run new calls) calls) "w1:p2" ≡ some 2
unfolding run id_for_herdr_pane lookup insert string_discrete ℕ_discrete
run_stable_example = run_stable calls (run new calls) "w1:p2" 2 refl

assign_or_get_resolves_example :
    let (r, id) = assign_or_get (run new calls) "w1:p1" "t9" in
    (id_for_herdr_pane r "w1:p1" ≡ some id)
    × (herdr_pane_id r id ≡ some "w1:p1")
    × (terminal_id r id ≡ some "t9")
assign_or_get_resolves_example =
    assign_or_get_resolves (run new calls) "w1:p1" "t9" (run-Inv calls (omega arith))

abbrev full : PaneInner
full = record new { next_id = u32_mod - 1 }

exhausted_alias_example :
    let (r, i) = assign_or_get full "p" "s" in
    let (r', j) = assign_or_get r "q" "t" in
    (i ≡ j) × (id_for_herdr_pane r' "p" ≡ some i) × (herdr_pane_id r' i ≡ some "q")
unfolding id_for_herdr_pane lookup
exhausted_alias_example = exhausted_alias full "p" "q" "s" "t" (omega arith) p_ne_q refl refl
  where
    p_ne_q : ◌≢◌ {A = String} "p" "q"
    p_ne_q e = cc ((eq_iff "p" "q").1 e)

assign_tab_resolves_example :
    let (r, id) = TabRegistry.assign_or_get TabRegistry.new "w1:t1" in
    (TabRegistry.herdr_tab_id r id ≡ some "w1:t1")
    × (id ≢ 0)
    × (TabRegistry.assign_or_get r "w1:t1" ≡ (r, id))
assign_tab_resolves_example = assign_tab_resolves [] "w1:t1" (omega arith)

abbrev events : List Event
events = starts "zellij:dev" ∷ starts "zellij:dev" ∷ starts "herdr:herdr" ∷ ends 1 ∷ ends 7 ∷ []

events-count : count (run_events initial events).clients "zellij:dev" ≡ 1
unfolding step attach drop_guard count lookup insert string_discrete ℕ_discrete get_elem? remove_at
events-count = refl

count-run_example :
    count (run_events initial events).clients "zellij:dev"
    ≡ live "zellij:dev" (run_events initial events).guards
count-run_example = count-run events "zellij:dev" (omega arith)
