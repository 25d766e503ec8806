-- ===== src/Herdr/Kernel/Resync/Calm.antt =====
-- A pane that a resync of muxrd/src/multiplexer/herdr/subscribe.rs finds as it was.
use muxr_core.Base.{
  ℕ, ◌≡◌, refl, sym, ap, ◌∙◌, Option, none, some, Option-cases, inl, inr, Bool, true, false, List,
  [], ◌∷◌, Map, lookup, insert, lookup-insert, All, All-mono, nat_key, string_key, arith,
}
use muxr_core.Mux.Layout.{AgentStatus}
use muxr_core.Herdr.PaneRegistry.{assign_or_get, id_for_herdr_pane}
use muxr_core.Herdr.PaneRegistry.Invariant.{known-assign_or_get}
use muxr_core.Herdr.Kernel.Resync.{
  Tables, ResyncPane, Pass, observe_pane, observe, same_status, is_status,
}
use muxr_core.Herdr.Kernel.Lines.{map_status}

unfoldable pub status_is : Map ℕ AgentStatus → AgentStatus → Option ℕ → Bool
unfolding lookup same_status
status_is m status none = false
status_is m status (some id) = is_status (lookup id m) status

-- The last-known status of the pane is the one that herdr lists.
unfoldable pub calm : Tables → ResyncPane → Bool
unfolding status_is id_for_herdr_pane map_status
calm t p = status_is t.last_status (map_status p.status) (id_for_herdr_pane t.panes p.herdr_pane_id)

pub status_is-insert :
    (m : Map ℕ AgentStatus) (id : ℕ) (status other : AgentStatus) (o : Option ℕ)
    → is_status (lookup id m) status ≡ true
    → status_is (insert id status m) other o ≡ status_is m other o
unfolding status_is same_status
status_is-insert m id status other none h = refl
status_is-insert m id status other (some k) h = elim (Option-cases (lookup id m)) [
  | inl e ↦ ground (arith, lookup-insert id k status m)
  | inr (s, e) ↦ ground (arith, lookup-insert id k status m)
]

pub known-calm :
    (t : Tables) (p : ResyncPane) (id : ℕ)
    → id_for_herdr_pane t.panes p.herdr_pane_id ≡ some id
    → calm t p ≡ is_status (lookup id t.last_status) (map_status p.status)
unfolding calm status_is
known-calm t p id e = rw (e, status_is) refl

pub unknown-calm :
    (t : Tables) (p : ResyncPane)
    → id_for_herdr_pane t.panes p.herdr_pane_id ≡ none
    → calm t p ≡ false
unfolding calm
unknown-calm t p e = rw (e, status_is) refl

pub known_pane-calm :
    (p : ResyncPane) (s : Pass) (id : ℕ)
    → id_for_herdr_pane s.tables.panes p.herdr_pane_id ≡ some id
    → calm s.tables p ≡ true
    → ((observe_pane p s).events ≡ s.events)
      × ((q : ResyncPane) → calm (observe_pane p s).tables q ≡ calm s.tables q)
unfolding observe_pane calm
known_pane-calm p s id e h =
    let r = assign_or_get s.tables.panes p.herdr_pane_id p.terminal_id in
    let m = s.tables.last_status in
    let status = map_status p.status in
    let a = known-assign_or_get s.tables.panes p.herdr_pane_id p.terminal_id id e in
    let known : is_status (lookup r.1 m) status ≡ true =
      ap (λ (i : ℕ). is_status (lookup i m) status) a.0 ∙ sym (known-calm s.tables p id e) ∙ h in
    (
      ground (arith, known),
      λ q.
          ap (status_is (insert r.1 status m) (map_status q.status)) (a.1 q.herdr_pane_id)
          ∙ status_is-insert m r.1 status (map_status q.status)
              (id_for_herdr_pane s.tables.panes q.herdr_pane_id) known,
    )

pub observe_pane-calm :
    (p : ResyncPane) (s : Pass)
    → calm s.tables p ≡ true
    → ((observe_pane p s).events ≡ s.events)
      × ((q : ResyncPane) → calm (observe_pane p s).tables q ≡ calm s.tables q)
observe_pane-calm p s h = elim (Option-cases (id_for_herdr_pane s.tables.panes p.herdr_pane_id)) [
  | inl e ↦ cc (h, unknown-calm s.tables p e)
  | inr (id, e) ↦ known_pane-calm p s id e h
]

pub observe-calm :
    (ps : List ResyncPane) (s : Pass)
    → All (λ p. calm s.tables p ≡ true) ps
    → (observe ps s).events ≡ s.events
unfolding observe
observe-calm [] s a = refl
observe-calm (p ∷ ps) s a =
    let c = observe_pane-calm p s a.0 in
    observe-calm ps (observe_pane p s) (
      All-mono (λ (q : ResyncPane). calm s.tables q ≡ true)
        (λ (q : ResyncPane). calm (observe_pane p s).tables q ≡ true) ps (λ q h. c.1 q ∙ h) a.1)
    ∙ c.0
