-- ===== src/Herdr/TabRegistry/Invariant.antt =====
-- The tab registry over any history of calls: its two maps stay inverse to one another.
use muxr_core.Base.{
  ℕ, suc, ◌+◌, ◌≤◌, ◌<◌, String, ◌≡◌, ◌≢◌, none, some, Option-cases, inl, inr, lookup,
  lookup-insert, nat_key, string_key, arith, List, [], ◌∷◌, length,
}
use muxr_core.Herdr.PaneRegistry.{first_id}
use muxr_core.Herdr.TabRegistry.{TabInner, new, u64_mod, assign_fresh, assign_or_get, herdr_tab_id}

pub record Inv (r : TabInner) : Type 0 where
  pub started : first_id ≤ r.next_id
  pub in_range : r.next_id < u64_mod
  pub assigned :
      (tab : String) (id : ℕ) → lookup tab r.by_herdr ≡ some id → herdr_tab_id r id ≡ some tab
  pub named :
      (tab : String) (id : ℕ)
      → herdr_tab_id r id ≡ some tab
      → (lookup tab r.by_herdr ≡ some id) × (first_id ≤ id) × (id < r.next_id)

new-Inv : Inv new
unfolding herdr_tab_id lookup
new-Inv = record {
  started = omega arith;
  in_range = omega arith;
  assigned = λ tab id h. cc;
  named = λ tab id h. cc;
}

fresh-Inv :
    (r : TabInner) (tab : String)
    → lookup tab r.by_herdr ≡ none
    → suc r.next_id < u64_mod
    → Inv r
    → Inv (assign_fresh r tab).0
unfolding assign_fresh herdr_tab_id
fresh-Inv r tab h room v = record {
  started = ground (arith, v.started);
  in_range = ground (arith, v.in_range);
  assigned = λ t j e. ground (
    arith,
    v.assigned t j,
    v.named t j,
    v.named t r.next_id,
    lookup-insert tab t r.next_id r.by_herdr,
    lookup-insert r.next_id j tab r.by_id,
  );
  named = λ t j e. ground (
    arith,
    v.named t j,
    lookup-insert tab t r.next_id r.by_herdr,
    lookup-insert r.next_id j tab r.by_id,
  );
}

assign_or_get-Inv :
    (r : TabInner) (tab : String) → suc r.next_id < u64_mod → Inv r → Inv (assign_or_get r tab).0
unfolding assign_or_get
assign_or_get-Inv r tab room v = elim (Option-cases (lookup tab r.by_herdr)) [
  | inl h ↦ rw (h, assign_or_get) (fresh-Inv r tab h room v)
  | inr (id, h) ↦ rw (h, assign_or_get) v
]

next_id-assign_or_get :
    (r : TabInner) (tab : String) → (assign_or_get r tab).0.next_id ≤ suc r.next_id
unfolding assign_or_get
next_id-assign_or_get r tab = ground arith

abbrev pub run : TabInner → List String → TabInner
run r [] = r
run r (t ∷ ts) = run (assign_or_get r t).0 ts

run_from-Inv :
    (ts : List String) (r : TabInner) → r.next_id + length ts < u64_mod → Inv r → Inv (run r ts)
run_from-Inv [] r room v = v
run_from-Inv (t ∷ ts) r room v =
    run_from-Inv ts (assign_or_get r t).0 (omega (arith, next_id-assign_or_get r t))
      (assign_or_get-Inv r t (omega arith) v)

-- After any history of fewer than 2^64 - 1 calls the two maps are inverse and the ids in range.
pub run-Inv : (ts : List String) → length ts + 1 < u64_mod → Inv (run new ts)
run-Inv ts room = run_from-Inv ts new (omega arith) new-Inv

next_id-run : (ts : List String) (r : TabInner) → (run r ts).next_id ≤ r.next_id + length ts
next_id-run [] r = omega arith
next_id-run (t ∷ ts) r =
    omega (arith, next_id-run ts (assign_or_get r t).0, next_id-assign_or_get r t)

id-assign_or_get :
    (r : TabInner) (tab : String)
    → lookup tab (assign_or_get r tab).0.by_herdr ≡ some (assign_or_get r tab).1
unfolding assign_or_get
id-assign_or_get r tab = ground (arith, lookup-insert tab tab r.next_id r.by_herdr)

assign_or_get_known :
    (r : TabInner) (tab : String) (id : ℕ)
    → lookup tab r.by_herdr ≡ some id
    → assign_or_get r tab ≡ (r, id)
unfolding assign_or_get
assign_or_get_known r tab id h = rw (h, assign_or_get)

-- The id that a call returns resolves to the tab, it is not 0, and asking again returns the same
-- id and changes nothing, after any history of fewer than 2^64 - 2 calls.
pub assign_tab_resolves :
    (ts : List String) (tab : String)
    → length ts + 2 < u64_mod
    → let (r, id) = assign_or_get (run new ts) tab in
      (herdr_tab_id r id ≡ some tab) × (id ≢ 0) × (assign_or_get r tab ≡ (r, id))
assign_tab_resolves ts tab room =
    let r = run new ts in
    let v =
      assign_or_get-Inv r tab (omega (arith, next_id-run ts new)) (run-Inv ts (omega arith)) in
    let h = id-assign_or_get r tab in
    let e = v.assigned tab (assign_or_get r tab).1 h in
    (
      e,
      ground (arith, v.named tab (assign_or_get r tab).1 e),
      assign_or_get_known (assign_or_get r tab).0 tab (assign_or_get r tab).1 h,
    )
