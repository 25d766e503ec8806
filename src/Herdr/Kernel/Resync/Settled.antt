-- ===== src/Herdr/Kernel/Resync/Settled.antt =====
-- A second resync of muxrd/src/multiplexer/herdr/subscribe.rs with the same listing publishes nothing.
use muxr_core.Base.{
  ℕ, suc, ◌+◌, ◌<◌, ◌≡◌, ◌≢◌, refl, sym, ◌∙◌, String, none, some, Option-cases, inl, inr, Bool,
  true, false, ◌&&◌, List, [], ◌∷◌, lookup, lookup-insert, lookup-retain_keys, contains, All,
  All-mono, NoRepeat, length, nat_key, string_key, arith,
}
use muxr_core.Mux.Layout.{AgentStatus}
use muxr_core.Herdr.PaneRegistry.{PaneInner, assign_or_get, id_for_herdr_pane, u32_mod}
use muxr_core.Herdr.PaneRegistry.Invariant.{
  Inv, assign_or_get_inner_stable, assign_or_get_inner-Inv, next_id-assign_or_get_inner,
}
use muxr_core.Herdr.Kernel.Resync.{
  Tables, ResyncPane, Pass, start, observe_pane, observe, prune, build_resync_events, same_status,
  is_status,
}
use muxr_core.Herdr.Kernel.Lines.{map_status}
use muxr_core.Herdr.Kernel.Resync.Tracked.{
  id_of, listed, observe_pane-known, observe-stable, observe_pane-live, build_resync_events-tracked,
}
use muxr_core.Herdr.Kernel.Resync.Calm.{calm, known-calm, unknown-calm, observe-calm}

-- The registry is in order, and has numbers left for the panes still to come.
record Roomy (s : Pass) (n : ℕ) : Type 0 where
  inv : Inv s.tables.panes
  room : s.tables.panes.next_id + n < u32_mod

observe_pane-Roomy :
    (p : ResyncPane) (s : Pass) (n : ℕ) → Roomy s (suc n) → Roomy (observe_pane p s) n
unfolding observe_pane assign_or_get
observe_pane-Roomy p s n r = record {
  inv =
      assign_or_get_inner-Inv s.tables.panes p.herdr_pane_id p.terminal_id true
        (omega (arith, r.room)) r.inv;
  room = omega (
    arith,
    r.room,
    next_id-assign_or_get_inner s.tables.panes p.herdr_pane_id p.terminal_id true,
  );
}

-- The pane is calm and live.
unfoldable pub settled : Pass → ResyncPane → Bool
unfolding calm contains id_for_herdr_pane
settled s p = elim (id_for_herdr_pane s.tables.panes p.herdr_pane_id) [
  | none ↦ false
  | some id ↦ is_status (lookup id s.tables.last_status) (map_status p.status) && contains id s.live
]

known-settled :
    (s : Pass) (p : ResyncPane) (id : ℕ)
    → id_for_herdr_pane s.tables.panes p.herdr_pane_id ≡ some id
    → settled s p
      ≡ (is_status (lookup id s.tables.last_status) (map_status p.status) && contains id s.live)
unfolding settled
known-settled s p id e = rw (e, settled) refl

unknown-settled :
    (s : Pass) (p : ResyncPane)
    → id_for_herdr_pane s.tables.panes p.herdr_pane_id ≡ none
    → settled s p ≡ false
unfolding settled
unknown-settled s p e = rw (e, settled) refl

same_status_refl : (s : AgentStatus) → same_status s s ≡ true
unfolding same_status
same_status_refl s = ground arith

observe_pane-at_once :
    (p : ResyncPane) (s : Pass)
    → (is_status (lookup (id_of p s) (observe_pane p s).tables.last_status) (map_status p.status)
        && contains (id_of p s) (observe_pane p s).live)
      ≡ true
unfolding observe_pane id_of
observe_pane-at_once p s = ground (
  arith,
  lookup-insert (id_of p s) (id_of p s) (map_status p.status) s.tables.last_status,
  observe_pane-live p s (id_of p s),
  same_status_refl (map_status p.status),
)

observe_pane-settled : (p : ResyncPane) (s : Pass) → settled (observe_pane p s) p ≡ true
observe_pane-settled p s =
    known-settled (observe_pane p s) p (id_of p s) (observe_pane-known p s)
    ∙ observe_pane-at_once p s

observe_pane-other :
    (p : ResyncPane) (s : Pass) (i : ℕ)
    → i ≢ id_of p s
    → (lookup i (observe_pane p s).tables.last_status ≡ lookup i s.tables.last_status)
      × (contains i (observe_pane p s).live ≡ contains i s.live)
unfolding observe_pane id_of
observe_pane-other p s i ne = ground (
  arith,
  ne,
  lookup-insert (id_of p s) i (map_status p.status) s.tables.last_status,
  observe_pane-live p s i,
)

-- Two panes have two numbers.
apart :
    (r : PaneInner) (p q : String) (i j : ℕ)
    → Inv r
    → p ≢ q
    → id_for_herdr_pane r p ≡ some i
    → id_for_herdr_pane r q ≡ some j
    → i ≢ j
apart r p q i j v ne h k e = ground (arith, v.assigned p i h, v.assigned q j k)

observe_pane-stable :
    (p : ResyncPane) (s : Pass) (pane : String) (id : ℕ)
    → id_for_herdr_pane s.tables.panes pane ≡ some id
    → id_for_herdr_pane (observe_pane p s).tables.panes pane ≡ some id
unfolding observe_pane assign_or_get
observe_pane-stable p s =
    assign_or_get_inner_stable s.tables.panes p.herdr_pane_id p.terminal_id true

absent :
    (p q : String) (l : List String) → contains p (q ∷ l) ≡ false → (p ≢ q) × (contains p l ≡ false)
unfolding contains
absent p q l h = (λ e. ground arith, ground arith)

observe_pane-settled_other :
    (p q : ResyncPane) (s : Pass) (n : ℕ)
    → Roomy s (suc n)
    → p.herdr_pane_id ≢ q.herdr_pane_id
    → settled s p ≡ true
    → settled (observe_pane q s) p ≡ true
observe_pane-settled_other p q s n r ne h =
    elim (Option-cases (id_for_herdr_pane s.tables.panes p.herdr_pane_id)) [
      | inl e ↦ cc (h, unknown-settled s p e)
      | inr (i, e) ↦
          let e' = observe_pane-stable q s p.herdr_pane_id i e in
          let d =
            apart (observe_pane q s).tables.panes p.herdr_pane_id q.herdr_pane_id i (id_of q s)
              (observe_pane-Roomy q s n r).inv ne e' (observe_pane-known q s) in
          let o = observe_pane-other q s i d in
          ground (arith, known-settled (observe_pane q s) p i e', known-settled s p i e, o, h)
    ]

-- Each pane is listed once.
abbrev pub listed_ids : List ResyncPane → List String
listed_ids [] = []
listed_ids (p ∷ ps) = p.herdr_pane_id ∷ listed_ids ps

observe-settled_other :
    (ps : List ResyncPane) (p : ResyncPane) (s : Pass)
    → Roomy s (length ps)
    → contains p.herdr_pane_id (listed_ids ps) ≡ false
    → settled s p ≡ true
    → settled (observe ps s) p ≡ true
unfolding observe
observe-settled_other [] p s r n h = h
observe-settled_other (q ∷ ps) p s r n h =
    let d = absent p.herdr_pane_id q.herdr_pane_id (listed_ids ps) n in
    observe-settled_other ps p (observe_pane q s) (observe_pane-Roomy q s (length ps) r) d.1
      (observe_pane-settled_other p q s (length ps) r d.0 h)

observe-settled :
    (ps : List ResyncPane) (s : Pass)
    → Roomy s (length ps)
    → NoRepeat (listed_ids ps)
    → All (λ p. settled (observe ps s) p ≡ true) ps
unfolding observe
observe-settled [] s r n = tt
observe-settled (p ∷ ps) s r n =
    let r' = observe_pane-Roomy p s (length ps) r in
    (
      observe-settled_other ps p (observe_pane p s) r' n.0 (observe_pane-settled p s),
      observe-settled ps (observe_pane p s) r' n.1,
    )

-- What the pruning leaves of a settled pane is calm.
prune-calm :
    (s : Pass) (p : ResyncPane) → settled s p ≡ true → calm (prune s.live s.tables) p ≡ true
unfolding prune
prune-calm s p h = elim (Option-cases (id_for_herdr_pane s.tables.panes p.herdr_pane_id)) [
  | inl e ↦ cc (h, unknown-settled s p e)
  | inr (i, e) ↦ ground (
    arith,
    known-calm (prune s.live s.tables) p i e,
    known-settled s p i e,
    h,
    lookup-retain_keys (λ id. contains id s.live) i s.tables.last_status,
  )
]

none_of : (s : List ℕ) → ((k : ℕ) → contains k s ≡ false) → s ≡ []
unfolding contains
none_of [] h = refl
none_of (i ∷ s) h = ground (arith, h i)

listed-same :
    (r r' : PaneInner) (ps : List ResyncPane) (k : ℕ)
    → All (λ p. id_for_herdr_pane r' p.herdr_pane_id ≡ id_for_herdr_pane r p.herdr_pane_id) ps
    → listed r' ps k ≡ listed r ps k
unfolding listed
listed-same r r' [] k a = refl
listed-same r r' (p ∷ ps) k a = ground (arith, a.0, listed-same r r' ps k a.1)

observe-same :
    (ps : List ResyncPane) (s : Pass) (p : ResyncPane)
    → calm s.tables p ≡ true
    → id_for_herdr_pane (observe ps s).tables.panes p.herdr_pane_id
      ≡ id_for_herdr_pane s.tables.panes p.herdr_pane_id
observe-same ps s p h = elim (Option-cases (id_for_herdr_pane s.tables.panes p.herdr_pane_id)) [
  | inl e ↦ cc (h, unknown-calm s.tables p e)
  | inr (i, e) ↦ observe-stable ps s p.herdr_pane_id i e ∙ sym e
]

calm_after :
    (ps : List ResyncPane) (t : Tables)
    → Inv t.panes
    → t.panes.next_id + length ps < u32_mod
    → NoRepeat (listed_ids ps)
    → All (λ p. calm (build_resync_events ps t).0 p ≡ true) ps
unfolding build_resync_events
calm_after ps t v room n =
    let s = observe ps (start t) in
    All-mono (λ (p : ResyncPane). settled s p ≡ true)
      (λ (p : ResyncPane). calm (prune s.live s.tables) p ≡ true) ps (prune-calm s)
      (observe-settled ps (start t) (record { inv = v; room = room }) n)

same_listed :
    (ps : List ResyncPane) (t : Tables)
    → All (λ p. calm t p ≡ true) ps
    → (k : ℕ) → listed (build_resync_events ps t).0.panes ps k ≡ listed t.panes ps k
unfolding build_resync_events prune
same_listed ps t a k = listed-same t.panes (observe ps (start t)).tables.panes ps k (
    All-mono (λ (p : ResyncPane). calm t p ≡ true)
      (λ (p : ResyncPane).
        id_for_herdr_pane (observe ps (start t)).tables.panes p.herdr_pane_id
        ≡ id_for_herdr_pane t.panes p.herdr_pane_id)
      ps (observe-same ps (start t)) a)

changed_again :
    (ps : List ResyncPane) (t : Tables)
    → All (λ p. calm t p ≡ true) ps
    → (build_resync_events ps t).1.changed ≡ []
unfolding build_resync_events
changed_again ps t a = observe-calm ps (start t) a

-- A resync right after another one with the same listing publishes no closure and no status, when
-- the registry is in order and has numbers left and each pane is listed once.
pub build_resync_events-again :
    (ps : List ResyncPane) (t : Tables)
    → Inv t.panes
    → t.panes.next_id + length ps < u32_mod
    → NoRepeat (listed_ids ps)
    → let e = (build_resync_events ps (build_resync_events ps t).0).1 in
      (e.closed ≡ []) × (e.changed ≡ [])
build_resync_events-again ps t v room n =
    let t' = (build_resync_events ps t).0 in
    let calm = calm_after ps t v room n in
    (
      none_of (build_resync_events ps t').1.closed (λ k. ground (
        arith,
        (build_resync_events-tracked ps t k).0,
        (build_resync_events-tracked ps t' k).1,
        same_listed ps t' calm k,
      )),
      changed_again ps t' calm,
    )
