-- ===== src/Herdr/PaneRegistry/Resolve.antt =====
-- What the ids of the pane registry resolve to after a call: the pane, and its `terminal_id`, by
-- which the relay attaches.
use muxr_core.Base.{
  ℕ, String, ◌≡◌, ◌≢◌, refl, none, some, Option-cases, Bool, true, false, inl, inr, lookup,
  lookup-insert, nat_key, string_key, arith, ◌∙◌, if◌then◌else◌, ◌+◌, insert,
}
use muxr_core.Herdr.PaneRegistry.{
  PaneInner, PaneEntry, u32_mod, refresh_entry, assign_fresh, assign_or_get_inner, assign_or_get,
  assign_or_get_keep_terminal, herdr_pane_id, id_for_herdr_pane, terminal_id,
}
use muxr_core.Herdr.PaneRegistry.Invariant.{Inv, refresh_entry-pane}

module _ (r : PaneInner) (id : ℕ) (terminal : String) where
  refresh_entry-terminal :
      (entry : PaneEntry)
      → lookup id r.by_id ≡ some entry
      → terminal_id (record r { by_id = refresh_entry id terminal r.by_id }) id ≡ some terminal
  unfolding refresh_entry terminal_id
  refresh_entry-terminal entry e =
      rw (e, refresh_entry)
        (ground (arith, lookup-insert id id (record entry { terminal_id = terminal }) r.by_id))

  refresh_entry-terminal_ne :
      (j : ℕ)
      → j ≢ id
      → terminal_id (record r { by_id = refresh_entry id terminal r.by_id }) j ≡ terminal_id r j
  unfolding refresh_entry terminal_id
  refresh_entry-terminal_ne j ne = elim (Option-cases (lookup id r.by_id)) [
    | inl e ↦ rw (e, refresh_entry)
    | inr (entry, e) ↦
        rw (e, refresh_entry)
          (ground (arith, lookup-insert id j (record entry { terminal_id = terminal }) r.by_id))
  ]

module _ (r : PaneInner) (pane terminal : String) (refresh : Bool) where
  assign_known :
      (id : ℕ)
      → id_for_herdr_pane r pane ≡ some id
      → assign_or_get_inner r pane terminal refresh
        ≡ (record r { by_id = if refresh then refresh_entry id terminal r.by_id else r.by_id }, id)
  unfolding assign_or_get_inner id_for_herdr_pane
  assign_known id h = rw (h, assign_or_get_inner)

  assign_unknown :
      id_for_herdr_pane r pane ≡ none
      → assign_or_get_inner r pane terminal refresh ≡ assign_fresh r pane terminal
  unfolding assign_or_get_inner id_for_herdr_pane
  assign_unknown h = rw (h, assign_or_get_inner)

Resolves : PaneInner × ℕ → String → String → Type 0
Resolves (r, id) pane terminal =
    (id_for_herdr_pane r pane ≡ some id)
    × (herdr_pane_id r id ≡ some pane)
    × (terminal_id r id ≡ some terminal)

fresh-Resolves :
    (r : PaneInner) (pane terminal : String) → Resolves (assign_fresh r pane terminal) pane terminal
unfolding Resolves assign_fresh id_for_herdr_pane herdr_pane_id terminal_id
fresh-Resolves r pane terminal = (
  ground (arith, lookup-insert pane pane r.next_id r.by_herdr),
  ground (arith, lookup-insert r.next_id r.next_id entry r.by_id),
  ground (arith, lookup-insert r.next_id r.next_id entry r.by_id),
)
  where
    entry : PaneEntry
    entry = record { herdr_pane_id = pane; terminal_id = terminal }

entry_of :
    (r : PaneInner) (id : ℕ) (pane : String)
    → herdr_pane_id r id ≡ some pane
    → (entry : PaneEntry) × (lookup id r.by_id ≡ some entry)
unfolding herdr_pane_id
entry_of r id pane h = ground arith

known-Resolves :
    (r : PaneInner) (pane terminal : String) (id : ℕ)
    → Inv r
    → id_for_herdr_pane r pane ≡ some id
    → Resolves (record r { by_id = refresh_entry id terminal r.by_id }, id) pane terminal
unfolding Resolves
known-Resolves r pane terminal id v h =
    let (entry, e) = entry_of r id pane (v.assigned pane id h) in
    (
      unfold id_for_herdr_pane in h,
      refresh_entry-pane r id id terminal ∙ v.assigned pane id h,
      refresh_entry-terminal r id terminal entry e,
    )

-- The id that `assign_or_get` returns resolves to the very pane and terminal that were reported.
pub assign_or_get_resolves :
    (r : PaneInner) (pane terminal : String)
    → Inv r
    → let (r', id) = assign_or_get r pane terminal in
      (id_for_herdr_pane r' pane ≡ some id)
      × (herdr_pane_id r' id ≡ some pane)
      × (terminal_id r' id ≡ some terminal)
unfolding assign_or_get Resolves
assign_or_get_resolves r pane terminal v = elim (Option-cases (id_for_herdr_pane r pane)) [
  | inl h ↦ rw (assign_unknown r pane terminal true h) (fresh-Resolves r pane terminal)
  | inr (id, h) ↦
      rw (assign_known r pane terminal true id h) (known-Resolves r pane terminal id v h)
]

fresh_frame :
    (r : PaneInner) (pane terminal : String) (j : ℕ)
    → let (r', id) = assign_fresh r pane terminal in
      j ≢ id → (herdr_pane_id r' j ≡ herdr_pane_id r j) × (terminal_id r' j ≡ terminal_id r j)
unfolding assign_fresh herdr_pane_id terminal_id
fresh_frame r pane terminal j ne = (
  ground (arith, lookup-insert r.next_id j entry r.by_id),
  ground (arith, lookup-insert r.next_id j entry r.by_id),
)
  where
    entry : PaneEntry
    entry = record { herdr_pane_id = pane; terminal_id = terminal }

-- A call moves no other id: what another id resolves to stays as it was, refreshed terminals
-- included.
pub assign_or_get_frame :
    (r : PaneInner) (pane terminal : String) (j : ℕ)
    → let (r', id) = assign_or_get r pane terminal in
      j ≢ id → (herdr_pane_id r' j ≡ herdr_pane_id r j) × (terminal_id r' j ≡ terminal_id r j)
unfolding assign_or_get
assign_or_get_frame r pane terminal j = elim (Option-cases (id_for_herdr_pane r pane)) [
  | inl h ↦ rw (assign_unknown r pane terminal true h) (fresh_frame r pane terminal j)
  | inr (id, h) ↦
      rw (assign_known r pane terminal true id h)
        (λ ne. (refresh_entry-pane r id j terminal, refresh_entry-terminal_ne r id terminal j ne))
]

-- An agent record that comes without a terminal changes nothing for a pane that is known, and
-- returns its id.
pub assign_or_get_keep_terminal_empty :
    (r : PaneInner) (pane : String) (id : ℕ)
    → id_for_herdr_pane r pane ≡ some id
    → assign_or_get_keep_terminal r pane "" ≡ (r, id)
unfolding assign_or_get_keep_terminal
assign_or_get_keep_terminal_empty r pane id h = assign_known r pane "" false id h

-- With a terminal it is `assign_or_get`.
pub assign_or_get_keep_terminal_nonempty :
    (r : PaneInner) (pane terminal : String)
    → terminal ≢ ""
    → assign_or_get_keep_terminal r pane terminal ≡ assign_or_get r pane terminal
unfolding assign_or_get_keep_terminal assign_or_get
assign_or_get_keep_terminal_nonempty r pane (String.[]) ne = absurd (ne refl)
assign_or_get_keep_terminal_nonempty r pane (String.◌∷◌ c s) ne = refl

module _ (r : PaneInner) (p q s t : String) (ne : p ≢ q) where
  fresh_unknown : id_for_herdr_pane r q ≡ none → id_for_herdr_pane (assign_fresh r p s).0 q ≡ none
  unfolding assign_fresh id_for_herdr_pane
  fresh_unknown hq = ground (arith, lookup-insert p q r.next_id r.by_herdr)

  fresh_alias :
      r.next_id + 1 ≡ u32_mod
      → let (r', i) = assign_fresh r p s in
        let (r'', j) = assign_fresh r' q t in
        (i ≡ j) × (id_for_herdr_pane r'' p ≡ some i) × (herdr_pane_id r'' i ≡ some q)
  unfolding assign_fresh id_for_herdr_pane herdr_pane_id
  fresh_alias full =
      let by_id = insert r.next_id (record { herdr_pane_id = p; terminal_id = s }) r.by_id in
      let entry : PaneEntry = record { herdr_pane_id = q; terminal_id = t } in
      (
        ground arith,
        ground (
          arith,
          lookup-insert p p r.next_id r.by_herdr,
          lookup-insert q p r.next_id (insert p r.next_id r.by_herdr),
        ),
        ground (arith, lookup-insert r.next_id r.next_id entry by_id),
      )

-- Past the last id the registry hands one id to two panes, and the id resolves to the later one.
pub exhausted_alias :
    (r : PaneInner) (p q s t : String)
    → r.next_id + 1 ≡ u32_mod
    → p ≢ q
    → id_for_herdr_pane r p ≡ none
    → id_for_herdr_pane r q ≡ none
    → let (r', i) = assign_or_get r p s in
      let (r'', j) = assign_or_get r' q t in
      (i ≡ j) × (id_for_herdr_pane r'' p ≡ some i) × (herdr_pane_id r'' i ≡ some q)
unfolding assign_or_get
exhausted_alias r p q s t full ne hp hq = rw (assign_unknown r p s true hp) (
    rw (assign_unknown (assign_fresh r p s).0 q t true (fresh_unknown r p q s t ne hq))
      (fresh_alias r p q s t ne full))
