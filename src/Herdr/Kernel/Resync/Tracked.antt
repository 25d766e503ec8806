-- ===== src/Herdr/Kernel/Resync/Tracked.antt =====
-- What a resync of muxrd/src/multiplexer/herdr/subscribe.rs leaves in the tables, and which panes it
-- closes.
use muxr_core.Base.{
  ℕ, ◌≡◌, refl, String, Option, none, some, Bool, true, false, not, ◌&&◌, ◌||◌, List, [], ◌∷◌, ◌++◌,
  ite, lookup, lookup-insert, lookup-remove, lookup-retain_keys, is_some, contains, keep, keys,
  contains-add, contains-append, contains-keep, contains-keys, nat_key, string_key, arith,
  ℕ_discrete,
}
use muxr_core.Herdr.PaneRegistry.{PaneInner, assign_or_get, id_for_herdr_pane}
use muxr_core.Herdr.PaneRegistry.Invariant.{id-assign_or_get_inner, assign_or_get_inner_stable}
use muxr_core.Herdr.Kernel.Resync.{
  Tables, ResyncPane, Pass, start, set_tab, tab_of, observe_pane, observe, put_sorted, sort_dedup,
  closed_of, prune, build_resync_events,
}
use muxr_core.Herdr.Kernel.Lines.{map_status}

-- A pane has an entry in one of the tables.
unfoldable pub tracked : Tables → ℕ → Bool
unfolding lookup
tracked t id = is_some (lookup id t.last_status) || is_some (lookup id t.pane_tabs)

unfoldable pub is_number : Option ℕ → ℕ → Bool
is_number none id = false
is_number (some j) id = ite (ℕ_discrete id j) true false

-- The id is that of a listed pane.
unfoldable pub listed : PaneInner → List ResyncPane → ℕ → Bool
unfolding id_for_herdr_pane is_number
listed panes [] id = false
listed panes (p ∷ ps) id =
    is_number (id_for_herdr_pane panes p.herdr_pane_id) id || listed panes ps id

unfoldable pub id_of : ResyncPane → Pass → ℕ
unfolding assign_or_get
id_of p s = (assign_or_get s.tables.panes p.herdr_pane_id p.terminal_id).1

pub observe_pane-known :
    (p : ResyncPane) (s : Pass)
    → id_for_herdr_pane (observe_pane p s).tables.panes p.herdr_pane_id ≡ some (id_of p s)
unfolding observe_pane id_of assign_or_get
observe_pane-known p s = id-assign_or_get_inner s.tables.panes p.herdr_pane_id p.terminal_id true

pub observe-stable :
    (ps : List ResyncPane) (s : Pass) (pane : String) (id : ℕ)
    → id_for_herdr_pane s.tables.panes pane ≡ some id
    → id_for_herdr_pane (observe ps s).tables.panes pane ≡ some id
unfolding observe observe_pane assign_or_get
observe-stable [] s pane id h = h
observe-stable (p ∷ ps) s pane id h =
    observe-stable ps (observe_pane p s) pane id
      (assign_or_get_inner_stable s.tables.panes p.herdr_pane_id p.terminal_id true pane id h)

set_tab-lookup :
    (id k : ℕ) (tab : Option ℕ) (m : List (ℕ × ℕ))
    → lookup k (set_tab id tab m) ≡ ite (ℕ_discrete k id) tab (lookup k m)
unfolding set_tab
set_tab-lookup id k none m = lookup-remove id k m
set_tab-lookup id k (some t) m = lookup-insert id k t m

pub observe_pane-live :
    (p : ResyncPane) (s : Pass) (k : ℕ)
    → contains k (observe_pane p s).live ≡ ite (ℕ_discrete k (id_of p s)) true (contains k s.live)
unfolding observe_pane id_of
observe_pane-live p s k = contains-add (id_of p s) k s.live

observe_pane-tracked :
    (p : ResyncPane) (s : Pass) (k : ℕ)
    → tracked (observe_pane p s).tables k ≡ ite (ℕ_discrete k (id_of p s)) true (tracked s.tables k)
unfolding observe_pane tracked id_of
observe_pane-tracked p s k = ground (
  arith,
  lookup-insert (id_of p s) k (map_status p.status) s.tables.last_status,
  set_tab-lookup (id_of p s) k (tab_of s.tables.tabs p.tab_id).1 s.tables.pane_tabs,
)

pub observe-live_mono :
    (ps : List ResyncPane) (s : Pass) (k : ℕ)
    → contains k s.live ≡ true
    → contains k (observe ps s).live ≡ true
unfolding observe
observe-live_mono [] s k h = h
observe-live_mono (p ∷ ps) s k h =
    observe-live_mono ps (observe_pane p s) k (ground (arith, observe_pane-live p s k))

observe-tracked_mono :
    (ps : List ResyncPane) (s : Pass) (k : ℕ)
    → tracked s.tables k ≡ true
    → tracked (observe ps s).tables k ≡ true
unfolding observe
observe-tracked_mono [] s k h = h
observe-tracked_mono (p ∷ ps) s k h =
    observe-tracked_mono ps (observe_pane p s) k (ground (arith, observe_pane-tracked p s k))

observe-tracked :
    (ps : List ResyncPane) (s : Pass) (k : ℕ)
    → (tracked (observe ps s).tables k || contains k s.live)
      ≡ (tracked s.tables k || contains k (observe ps s).live)
unfolding observe
observe-tracked [] s k = refl
observe-tracked (p ∷ ps) s k =
    let s' = observe_pane p s in
    ground (
      arith,
      observe_pane-live p s k,
      observe_pane-tracked p s k,
      observe-tracked ps s' k,
      observe-live_mono ps s' k,
      observe-tracked_mono ps s' k,
    )

-- The live panes are those listed.
pub observe-listed :
    (ps : List ResyncPane) (s : Pass) (k : ℕ)
    → contains k (observe ps s).live
      ≡ (contains k s.live || listed (observe ps s).tables.panes ps k)
unfolding observe listed is_number
observe-listed [] s k = ground arith
observe-listed (p ∷ ps) s k =
    let s' = observe_pane p s in
    ground (
      arith,
      observe_pane-live p s k,
      observe-listed ps s' k,
      observe-stable ps s' p.herdr_pane_id (id_of p s) (observe_pane-known p s),
    )

contains-put_sorted :
    (n k : ℕ) (ns : List ℕ)
    → contains k (put_sorted n ns) ≡ ite (ℕ_discrete k n) true (contains k ns)
unfolding put_sorted contains
contains-put_sorted n k [] = refl
contains-put_sorted n k (m ∷ ms) = ground (arith, contains-put_sorted n k ms)

contains-sort_dedup : (k : ℕ) (ns : List ℕ) → contains k (sort_dedup ns) ≡ contains k ns
unfolding sort_dedup contains
contains-sort_dedup k [] = refl
contains-sort_dedup k (n ∷ ns) =
    ground (arith, contains-sort_dedup k ns, contains-put_sorted n k (sort_dedup ns))

pub contains-closed_of :
    (live : List ℕ) (t : Tables) (k : ℕ)
    → contains k (closed_of live t) ≡ (tracked t k && not (contains k live))
unfolding closed_of tracked contains
contains-closed_of live t k =
    let p : ℕ → Bool = λ id. not (contains id live) in
    let all : List ℕ = keys t.last_status ++ keys t.pane_tabs in
    ground (
      arith,
      contains-sort_dedup k (keep p all),
      contains-keep p k all,
      contains-append k (keys t.last_status) (keys t.pane_tabs),
      contains-keys k t.last_status,
      contains-keys k t.pane_tabs,
    )

prune-tracked :
    (live : List ℕ) (t : Tables) (k : ℕ)
    → tracked (prune live t) k ≡ (tracked t k && contains k live)
unfolding prune tracked
prune-tracked live t k =
    let p : ℕ → Bool = λ id. contains id live in
    ground (arith, lookup-retain_keys p k t.last_status, lookup-retain_keys p k t.pane_tabs)

-- After a resync the tables have exactly the panes that herdr listed, under the numbers that the
-- registry then gives them, and the closures that it reports are exactly the panes tracked before
-- that herdr did not list.
pub build_resync_events-tracked :
    (ps : List ResyncPane) (t : Tables) (id : ℕ)
    → let (t', e) = build_resync_events ps t in
      (tracked t' id ≡ listed t'.panes ps id)
      × (contains id e.closed ≡ (tracked t id && not (listed t'.panes ps id)))
unfolding build_resync_events prune contains
build_resync_events-tracked ps t id =
    let s = observe ps (start t) in
    ground (
      arith,
      prune-tracked s.live s.tables id,
      contains-closed_of s.live s.tables id,
      observe-tracked ps (start t) id,
      observe-listed ps (start t) id,
    )
