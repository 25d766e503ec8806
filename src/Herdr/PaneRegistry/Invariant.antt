-- ===== src/Herdr/PaneRegistry/Invariant.antt =====
-- The two maps of the pane registry are inverse to one another.
use muxr_core.Base.{
  ℕ, suc, ◌≤◌, ◌<◌, String, ◌≡◌, refl, none, some, Option-cases, Bool, inl, inr, lookup,
  lookup-insert, nat_key, string_key, arith,
}
use muxr_core.Herdr.PaneRegistry.{
  PaneInner, PaneEntry, new, first_id, u32_mod, refresh_entry, assign_fresh, assign_or_get_inner,
  assign_or_get, herdr_pane_id, id_for_herdr_pane,
}

-- The ids lie between `first_id` and `next_id`, and a pane has an id exactly when the id has that
-- pane.
pub record Inv (r : PaneInner) : Type 0 where
  pub started : first_id ≤ r.next_id
  pub in_range : r.next_id < u32_mod
  pub assigned :
      (pane : String) (id : ℕ) → id_for_herdr_pane r pane ≡ some id → herdr_pane_id r id ≡ some pane
  pub named :
      (pane : String) (id : ℕ)
      → herdr_pane_id r id ≡ some pane
      → (id_for_herdr_pane r pane ≡ some id) × (first_id ≤ id) × (id < r.next_id)

pub new-Inv : Inv new
unfolding id_for_herdr_pane herdr_pane_id lookup
new-Inv = record {
  started = omega arith;
  in_range = omega arith;
  assigned = λ pane id h. cc;
  named = λ pane id h. cc;
}

abbrev pane_of : PaneEntry → String
pane_of e = e.herdr_pane_id

pub refresh_entry-pane :
    (r : PaneInner) (id j : ℕ) (terminal : String)
    → herdr_pane_id (record r { by_id = refresh_entry id terminal r.by_id }) j ≡ herdr_pane_id r j
unfolding refresh_entry herdr_pane_id
refresh_entry-pane r id j terminal = elim (Option-cases (lookup id r.by_id)) [
  | inl e ↦ rw (e, refresh_entry)
  | inr (entry, e) ↦
      rw (e, refresh_entry)
        (ground (arith, lookup-insert id j (record entry { terminal_id = terminal }) r.by_id))
]

module _ (r : PaneInner) (pane terminal : String) (refresh : Bool) where
  known-Inv :
      (id : ℕ)
      → id_for_herdr_pane r pane ≡ some id
      → Inv r
      → Inv (assign_or_get_inner r pane terminal refresh).0
  unfolding assign_or_get_inner id_for_herdr_pane
  known-Inv id h v =
      rw (h, assign_or_get_inner)
        (record {
          started = v.started;
          in_range = v.in_range;
          assigned = λ p j e. ground (arith, refresh_entry-pane r id j terminal, v.assigned p j);
          named = λ p j e. ground (arith, refresh_entry-pane r id j terminal, v.named p j);
        })

  fresh-Inv :
      id_for_herdr_pane r pane ≡ none
      → suc r.next_id < u32_mod
      → Inv r
      → Inv (assign_or_get_inner r pane terminal refresh).0
  unfolding assign_or_get_inner id_for_herdr_pane herdr_pane_id
  fresh-Inv h room v =
      rw (h, assign_or_get_inner)
        (record {
          started = ground (arith, v.started);
          in_range = ground (arith, v.in_range);
          assigned = λ p j e. ground (
            arith,
            v.assigned p j,
            v.named p j,
            v.named p r.next_id,
            v.assigned p r.next_id,
            lookup-insert pane p r.next_id r.by_herdr,
            lookup-insert r.next_id j entry r.by_id,
          );
          named = λ p j e. ground (
            arith,
            v.named p j,
            v.assigned p j,
            lookup-insert pane p r.next_id r.by_herdr,
            lookup-insert r.next_id j entry r.by_id,
          );
        })
    where
      entry : PaneEntry
      entry = record { herdr_pane_id = pane; terminal_id = terminal }

  -- Assigning keeps the two maps inverse, while an unused id is left.
  pub assign_or_get_inner-Inv :
      suc r.next_id < u32_mod → Inv r → Inv (assign_or_get_inner r pane terminal refresh).0
  assign_or_get_inner-Inv room v = elim (Option-cases (id_for_herdr_pane r pane)) [
    | inl h ↦ fresh-Inv h room v
    | inr (id, h) ↦ known-Inv id h v
  ]

  -- One call takes at most one id.
  pub next_id-assign_or_get_inner :
      (assign_or_get_inner r pane terminal refresh).0.next_id ≤ suc r.next_id
  unfolding assign_or_get_inner assign_fresh
  next_id-assign_or_get_inner = ground arith

  -- The id that a call returns is the pane's id from then on.
  pub id-assign_or_get_inner :
      let (r', id) = assign_or_get_inner r pane terminal refresh in
      id_for_herdr_pane r' pane ≡ some id
  unfolding assign_or_get_inner id_for_herdr_pane
  id-assign_or_get_inner = ground (arith, lookup-insert pane pane r.next_id r.by_herdr)

  -- An id once given is never changed, whatever the call and however many ids are used up.
  pub assign_or_get_inner_stable :
      (p : String) (id : ℕ)
      → id_for_herdr_pane r p ≡ some id
      → id_for_herdr_pane (assign_or_get_inner r pane terminal refresh).0 p ≡ some id
  unfolding assign_or_get_inner id_for_herdr_pane
  assign_or_get_inner_stable p id h = ground (arith, lookup-insert pane p r.next_id r.by_herdr)

-- A known pane keeps its id, and the numbers of all panes stay.
pub known-assign_or_get :
    (r : PaneInner) (pane terminal : String) (id : ℕ)
    → id_for_herdr_pane r pane ≡ some id
    → ((assign_or_get r pane terminal).1 ≡ id)
      × ((q : String)
          → id_for_herdr_pane (assign_or_get r pane terminal).0 q ≡ id_for_herdr_pane r q)
unfolding assign_or_get assign_or_get_inner id_for_herdr_pane
known-assign_or_get r pane terminal id h = rw (h, assign_or_get_inner) (refl, λ q. refl)
