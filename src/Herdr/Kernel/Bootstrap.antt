-- ===== src/Herdr/Kernel/Bootstrap.antt =====
-- The panes that the status subscription covers: `bootstrap_pane_set` and `pane_needs_widening` of
-- muxrd/src/multiplexer/herdr/subscribe.rs. A set of ids is a list.
use muxr_core.Base.{
  ◌≡◌, refl, String, Option, none, some, Bool, true, false, not, ◌&&◌, ◌||◌, List, [], ◌∷◌, ◌++◌,
  contains, add, keep, NoRepeat, contains-add, contains-append, contains-keep, keep-NoRepeat,
  if◌then◌else◌, string_key, string_discrete, arith,
}
use muxr_core.Herdr.Kernel.Lines.{Json, PaneChange, created, gone, lifecycle_change, same_str}

pub record Boot : Type 0 where
  pub ids : List String
  pub seen : List String
  pub gone_ids : List String

-- One buffered line. A pane that was not seen before goes behind the others.
unfoldable pub fold_change : Option PaneChange → Boot → Boot
unfolding contains add
fold_change (some (created (some id))) b =
    if contains id b.seen then b else record b { ids = b.ids ++ (id ∷ []); seen = add id b.seen }
fold_change (some (gone (some id))) b = record b { gone_ids = add id b.gone_ids }
fold_change (some (created none)) b = b
fold_change (some (gone none)) b = b
fold_change none b = b

module _ (json : Json) where
  unfoldable pub fold_lines : List String → Boot → Boot
  unfolding fold_change lifecycle_change
  fold_lines [] b = b
  fold_lines (l ∷ ls) b = fold_lines ls (fold_change (lifecycle_change json l) b)

  unfoldable pub bootstrap_pane_set : List String → List String → List String
  unfolding fold_lines contains keep
  bootstrap_pane_set enumerated buffered =
      let b = fold_lines buffered (record { ids = enumerated; seen = enumerated; gone_ids = [] }) in
      keep (λ id. not (contains id b.gone_ids)) b.ids

-- `None` stands for a push without a readable id.
unfoldable pub pane_needs_widening : Option String → List String → Bool
unfolding contains
pane_needs_widening none subscribed = true
pane_needs_widening (some pane) subscribed = not (contains pane subscribed)

-- What a change says of one pane.
unfoldable pub creates : String → Option PaneChange → Bool
creates id (some (created (some p))) = same_str id p
creates id (some (created none)) = false
creates id (some (gone p)) = false
creates id none = false

unfoldable pub removes : String → Option PaneChange → Bool
removes id (some (gone (some p))) = same_str id p
removes id (some (gone none)) = false
removes id (some (created p)) = false
removes id none = false

module _ (json : Json) where
  unfoldable pub created_in : String → List String → Bool
  unfolding creates
  created_in id [] = false
  created_in id (l ∷ ls) = creates id (lifecycle_change json l) || created_in id ls

  unfoldable pub gone_in : String → List String → Bool
  unfolding removes
  gone_in id [] = false
  gone_in id (l ∷ ls) = removes id (lifecycle_change json l) || gone_in id ls

-- The ids are those seen, each once.
abbrev Seen : Boot → Type 0
Seen b = NoRepeat b.ids × ((id : String) → contains id b.ids ≡ contains id b.seen)

NoRepeat-snoc :
    (s : List String) (id : String) → contains id s ≡ false → NoRepeat s → NoRepeat (s ++ (id ∷ []))
unfolding contains
NoRepeat-snoc [] id h n = ground arith
NoRepeat-snoc (j ∷ s) id h n =
    ground (arith, NoRepeat-snoc s id, n.0, n.1, contains-append j s (id ∷ []))

fold_change-contains :
    (c : Option PaneChange) (b : Boot) (id : String)
    → ((id : String) → contains id b.ids ≡ contains id b.seen)
    → (contains id (fold_change c b).ids ≡ (contains id b.ids || creates id c))
      × (contains id (fold_change c b).seen ≡ contains id (fold_change c b).ids)
      × (contains id (fold_change c b).gone_ids ≡ (contains id b.gone_ids || removes id c))
unfolding fold_change creates removes contains string_discrete
fold_change-contains none b id h = ground (arith, h id)
fold_change-contains (some (created none)) b id h = ground (arith, h id)
fold_change-contains (some (gone none)) b id h = ground (arith, h id)
fold_change-contains (some (created (some p))) b id h =
    ground (arith, h id, h p, contains-add p id b.seen, contains-append id b.ids (p ∷ []))
fold_change-contains (some (gone (some p))) b id h =
    ground (arith, h id, contains-add p id b.gone_ids)

fold_change-NoRepeat : (c : Option PaneChange) (b : Boot) → Seen b → NoRepeat (fold_change c b).ids
unfolding fold_change
fold_change-NoRepeat none b s = s.0
fold_change-NoRepeat (some (created none)) b s = s.0
fold_change-NoRepeat (some (gone none)) b s = s.0
fold_change-NoRepeat (some (gone (some p))) b s = s.0
fold_change-NoRepeat (some (created (some p))) b s =
    ground (arith, s.0, s.1 p, NoRepeat-snoc b.ids p)

module _ (json : Json) where
  fold_lines-contains :
      (ls : List String) (b : Boot) (id : String)
      → ((id : String) → contains id b.ids ≡ contains id b.seen)
      → (contains id (fold_lines json ls b).ids ≡ (contains id b.ids || created_in json id ls))
        × (contains id (fold_lines json ls b).gone_ids
            ≡ (contains id b.gone_ids || gone_in json id ls))
  unfolding fold_lines created_in gone_in
  fold_lines-contains [] b id h = ground arith
  fold_lines-contains (l ∷ ls) b id h =
      let c = lifecycle_change json l in
      ground (
        arith,
        fold_change-contains c b id h,
        fold_lines-contains ls (fold_change c b) id
            (λ j. ground (arith, fold_change-contains c b j h)),
      )

  fold_lines-NoRepeat : (ls : List String) (b : Boot) → Seen b → NoRepeat (fold_lines json ls b).ids
  unfolding fold_lines
  fold_lines-NoRepeat [] b s = s.0
  fold_lines-NoRepeat (l ∷ ls) b s =
      let c = lifecycle_change json l in
      fold_lines-NoRepeat ls (fold_change c b)
        (fold_change-NoRepeat c b s, λ j. ground (arith, fold_change-contains c b j s.1))

  pub contains-bootstrap_pane_set :
      (enumerated buffered : List String) (id : String)
      → contains id (bootstrap_pane_set json enumerated buffered) ≡ (
          (contains id enumerated || created_in json id buffered) && not (gone_in json id buffered))
  unfolding bootstrap_pane_set contains
  contains-bootstrap_pane_set enumerated buffered id =
      let b : Boot = record { ids = enumerated; seen = enumerated; gone_ids = [] } in
      let b' = fold_lines json buffered b in
      let p : String → Bool = λ id. not (contains id b'.gone_ids) in
      ground (arith, contains-keep p id b'.ids, fold_lines-contains buffered b id (λ j. refl))

  pub bootstrap_pane_set-NoRepeat :
      (enumerated buffered : List String)
      → NoRepeat enumerated
      → NoRepeat (bootstrap_pane_set json enumerated buffered)
  unfolding bootstrap_pane_set
  bootstrap_pane_set-NoRepeat enumerated buffered n =
      let b : Boot = record { ids = enumerated; seen = enumerated; gone_ids = [] } in
      let b' = fold_lines json buffered b in
      keep-NoRepeat (λ id. not (contains id b'.gone_ids)) b'.ids
        (fold_lines-NoRepeat buffered b (n, λ j. refl))
