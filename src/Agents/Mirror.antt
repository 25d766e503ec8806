-- ===== src/Agents/Mirror.antt =====
-- A client that applies the events of the stream of muxrd/src/grpc/agent_ops.rs has the rows that the
-- server holds.
use muxr_core.Base.{
  ℕ, ◌≡◌, refl, ap, ◌∙◌, Option, none, some, Bool, true, false, not, ◌&&◌, List, [], ◌∷◌, ◌++◌, map,
  Map, lookup, insert, remove, keys, contains, keep, lookup-insert, lookup-remove, contains-keep,
  contains-keys, is_some, if◌then◌else◌, if_keeps, ite, ℕ_discrete, nat_key, arith, NoRepeat,
}
use muxr_core.Agents.{
  AgentMsg, AgentList, AgentEvent, snapshot, changed, removed, hold, hold_rows, is_held,
  msg_discrete, not_deferred, changes, put_number, sort_unstable, gone_panes, keep_row,
  keep_deferred, reconcile,
}

-- What a client does with an event: a snapshot replaces all rows, a row is put in, a pane is taken
-- out.
unfoldable pub apply_event : AgentEvent → Map ℕ AgentMsg → Map ℕ AgentMsg
unfolding hold insert remove
apply_event (snapshot list) rows = hold list
apply_event (changed msg) rows = insert msg.pane_id msg rows
apply_event (removed pane) rows = remove pane rows

unfoldable pub replay : List AgentEvent → Map ℕ AgentMsg → Map ℕ AgentMsg
unfolding apply_event
replay [] rows = rows
replay (e ∷ es) rows = replay es (apply_event e rows)

pub replay-append :
    (es fs : List AgentEvent) (rows : Map ℕ AgentMsg)
    → replay (es ++ fs) rows ≡ replay fs (replay es rows)
unfolding replay
replay-append [] fs rows = refl
replay-append (e ∷ es) fs rows = replay-append es fs (apply_event e rows)

-- The row of a pane.
unfoldable pub row_of : ℕ → List AgentMsg → Option AgentMsg
row_of k [] = none
row_of k (a ∷ rest) = let after = row_of k rest in ite (ℕ_discrete k a.pane_id) (some a) after

abbrev pub panes_of : List AgentMsg → List ℕ
panes_of [] = []
panes_of (a ∷ rest) = a.pane_id ∷ panes_of rest

-- The first of two options that is there.
unfoldable pub or_row : Option AgentMsg → Option AgentMsg → Option AgentMsg
or_row none o = o
or_row (some a) o = some a

row_of-none :
    (k : ℕ) (rows : List AgentMsg) → contains k (panes_of rows) ≡ false → row_of k rows ≡ none
unfolding row_of contains
row_of-none k [] h = refl
row_of-none k (a ∷ rest) h = ground (arith, row_of-none k rest)

lookup-hold_rows :
    (k : ℕ) (rows : List AgentMsg) (m : Map ℕ AgentMsg)
    → NoRepeat (panes_of rows)
    → lookup k (hold_rows rows m) ≡ or_row (row_of k rows) (lookup k m)
unfolding hold_rows row_of or_row
lookup-hold_rows k [] m n = refl
lookup-hold_rows k (a ∷ rest) m n = ground (
  arith,
  lookup-hold_rows k rest (insert a.pane_id a m) n.1,
  lookup-insert a.pane_id k a m,
  row_of-none k rest,
  n.0,
)

decided : {P : Type 0} (d : Dec P) → ite d true false ≡ true → P
decided (yes p) h = p
decided (no ne) h = cc

is_held-eq : (o : Option AgentMsg) (a : AgentMsg) → is_held o a ≡ true → o ≡ some a
unfolding is_held
is_held-eq none a h = cc
is_held-eq (some b) a h = ap some (decided (msg_discrete b a) h)

changes-elsewhere :
    (k : ℕ) (rows : List AgentMsg) (held m : Map ℕ AgentMsg)
    → contains k (panes_of rows) ≡ false
    → lookup k (replay (changes held rows) m) ≡ lookup k m
unfolding changes replay apply_event contains
changes-elsewhere k [] held m h = refl
changes-elsewhere k (a ∷ rest) held m h = ground (
  arith,
  changes-elsewhere k rest held m,
  changes-elsewhere k rest held (insert a.pane_id a m),
  lookup-insert a.pane_id k a m,
)

-- Replaying the changed rows puts in the rows that there are.
lookup-changes :
    (k : ℕ) (rows : List AgentMsg) (held m : Map ℕ AgentMsg)
    → NoRepeat (panes_of rows)
    → lookup k m ≡ lookup k held
    → lookup k (replay (changes held rows) m) ≡ or_row (row_of k rows) (lookup k held)
unfolding changes replay apply_event row_of or_row
lookup-changes k [] held m n h = h
lookup-changes k (a ∷ rest) held m n h = ground (
  arith,
  n.0,
  h,
  changes-elsewhere k rest held m,
  changes-elsewhere k rest held (insert a.pane_id a m),
  lookup-insert a.pane_id k a m,
  row_of-none k rest,
  is_held-eq (lookup a.pane_id held) a,
  lookup-changes k rest held m n.1,
  lookup-changes k rest held (insert a.pane_id a m) n.1,
  ap (λ (j : ℕ). lookup j held),
)

contains-put_number :
    (n k : ℕ) (ns : List ℕ)
    → contains k (put_number n ns) ≡ ite (ℕ_discrete k n) true (contains k ns)
unfolding put_number contains
contains-put_number n k [] = refl
contains-put_number n k (m ∷ ms) = ground (arith, contains-put_number n k ms)

contains-sort_unstable : (k : ℕ) (ns : List ℕ) → contains k (sort_unstable ns) ≡ contains k ns
unfolding sort_unstable contains
contains-sort_unstable k [] = refl
contains-sort_unstable k (n ∷ ns) =
    ground (arith, contains-sort_unstable k ns, contains-put_number n k (sort_unstable ns))

lookup-removed :
    (k : ℕ) (ps : List ℕ) (m : Map ℕ AgentMsg)
    → lookup k (replay (map removed ps) m) ≡ (if contains k ps then none else lookup k m)
unfolding replay apply_event contains
lookup-removed k [] m = refl
lookup-removed k (p ∷ ps) m = ground (arith, lookup-removed k ps (remove p m), lookup-remove p k m)

contains-gone_panes :
    (k : ℕ) (held : Map ℕ AgentMsg) (defer : List ℕ) (next : Map ℕ AgentMsg)
    → contains k (gone_panes held defer next)
      ≡ (is_some (lookup k held) && (not (contains k defer) && not (is_some (lookup k next))))
unfolding gone_panes
contains-gone_panes k held defer next =
    let p : ℕ → Bool = λ pane. not (contains pane defer) && not (is_some (lookup pane next)) in
    ground (
      arith,
      contains-sort_unstable k (keep p (keys held)),
      contains-keep p k (keys held),
      contains-keys k held,
    )

lookup-keep_row :
    (k pane : ℕ) (o : Option AgentMsg) (next : Map ℕ AgentMsg)
    → lookup k (keep_row pane o next)
      ≡ (if ite (ℕ_discrete k pane) true false then or_row o (lookup k next) else lookup k next)
unfolding keep_row or_row
lookup-keep_row k pane none next = ground arith
lookup-keep_row k pane (some row) next = ground (arith, lookup-insert pane k row next)

lookup-keep_deferred :
    (k : ℕ) (held : Map ℕ AgentMsg) (defer : List ℕ) (next : Map ℕ AgentMsg)
    → lookup k (keep_deferred held defer next)
      ≡ (if contains k defer then or_row (lookup k held) (lookup k next) else lookup k next)
unfolding keep_deferred contains or_row
lookup-keep_deferred k held [] next = refl
lookup-keep_deferred k held (p ∷ ps) next = ground (
  arith,
  lookup-keep_deferred k held ps (keep_row p (lookup p held) next),
  lookup-keep_row k p (lookup p held) next,
  ap (λ (j : ℕ). lookup j held),
)

row_of-deferred :
    (k : ℕ) (defer : List ℕ) (rows : List AgentMsg)
    → row_of k (not_deferred defer rows) ≡ (if contains k defer then none else row_of k rows)
unfolding row_of not_deferred
row_of-deferred k defer [] = ground arith
row_of-deferred k defer (a ∷ rest) =
    ground (arith, row_of-deferred k defer rest, ap (λ (j : ℕ). contains j defer))

contains-deferred :
    (k : ℕ) (defer : List ℕ) (rows : List AgentMsg)
    → contains k (panes_of rows) ≡ false
    → contains k (panes_of (not_deferred defer rows)) ≡ false
unfolding not_deferred contains
contains-deferred k defer [] h = refl
contains-deferred k defer (a ∷ rest) h = ground (arith, contains-deferred k defer rest)

not_deferred-NoRepeat :
    (defer : List ℕ) (rows : List AgentMsg)
    → NoRepeat (panes_of rows)
    → NoRepeat (panes_of (not_deferred defer rows))
unfolding not_deferred
not_deferred-NoRepeat defer [] n = tt
not_deferred-NoRepeat defer (a ∷ rest) n =
    if_keeps (λ (rows : List AgentMsg). NoRepeat (panes_of rows)) (contains a.pane_id defer)
      (not_deferred defer rest) (a ∷ not_deferred defer rest) (not_deferred-NoRepeat defer rest n.1)
      (contains-deferred a.pane_id defer rest n.0, not_deferred-NoRepeat defer rest n.1)

pub reconcile-replay :
    (k : ℕ) (held : Map ℕ AgentMsg) (fresh : AgentList) (defer : List ℕ) (c : Map ℕ AgentMsg)
    → NoRepeat (panes_of fresh.agents)
    → lookup k c ≡ lookup k held
    → lookup k (replay (reconcile held fresh defer).1 c) ≡ lookup k (reconcile held fresh defer).0
unfolding reconcile or_row lookup
reconcile-replay k held fresh defer c n h =
    let rows = not_deferred defer fresh.agents in
    let next = hold_rows rows [] in
    let n' = not_deferred-NoRepeat defer fresh.agents n in
    let gone = gone_panes held defer next in
    ap (lookup k) (replay-append (changes held rows) (map removed gone) c)
    ∙ ground (
      arith,
      lookup-removed k gone (replay (changes held rows) c),
      contains-gone_panes k held defer next,
      lookup-changes k rows held c n' h,
      lookup-keep_deferred k held defer next,
      lookup-hold_rows k rows [] n',
      row_of-deferred k defer fresh.agents,
    )
