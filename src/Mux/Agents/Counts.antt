-- ===== src/Mux/Agents/Counts.antt =====
-- What the summary of agents in muxrd/src/multiplexer/types.rs counts.
use muxr_core.Base.{
  ℕ, suc, ◌+◌, ◌%◌, ◌^◌, ◌<◌, ◌≤◌, ◌≡◌, refl, sym, subst, Bool-cases, inl, inr, ◌∙◌, String, true,
  false, not, ◌&&◌, List, [], ◌∷◌, ◌++◌, ◌==◌, ltb, length, contains, contains-append, NoRepeat,
  All, if◌then◌else◌, if_keeps, arith, string_key, length-append,
}
use muxr_core.Mux.Layout.{AgentStatus, idle, working, blocked, done, unknown}
use muxr_core.Mux.Agents.{
  AgentSnapshot, AgentSummary, count_status, add_kind, summarise, summary_of, summary_kinds_cap,
  put_agent, key_le, sort_key,
}

-- The section of the list that a status has, from the top.
abbrev pub section : AgentStatus → ℕ
section blocked = 0
section done = 1
section working = 2
section idle = 3
section unknown = 4

unfoldable pub bit : AgentStatus → AgentStatus → ℕ
bit wanted st = if section wanted == section st then 1 else 0

unfoldable pub count : AgentStatus → List AgentSnapshot → ℕ
count wanted [] = 0
count wanted (a ∷ rest) = bit wanted a.status + count wanted rest

abbrev pub counter : AgentStatus → AgentSummary → ℕ
counter blocked s = s.blocked_count
counter done s = s.done_count
counter working s = s.working_count
counter idle s = s.idle_count
counter unknown s = s.unknown_count

counter-count_status :
    (wanted st : AgentStatus) (s : AgentSummary)
    → suc (counter wanted s) < 2 ^ 32
    → counter wanted (count_status st s) ≡ counter wanted s + bit wanted st
unfolding bit count_status
counter-count_status blocked blocked s h = omega arith
counter-count_status blocked done s h = omega arith
counter-count_status blocked working s h = omega arith
counter-count_status blocked idle s h = omega arith
counter-count_status blocked unknown s h = omega arith
counter-count_status done blocked s h = omega arith
counter-count_status done done s h = omega arith
counter-count_status done working s h = omega arith
counter-count_status done idle s h = omega arith
counter-count_status done unknown s h = omega arith
counter-count_status working blocked s h = omega arith
counter-count_status working done s h = omega arith
counter-count_status working working s h = omega arith
counter-count_status working idle s h = omega arith
counter-count_status working unknown s h = omega arith
counter-count_status idle blocked s h = omega arith
counter-count_status idle done s h = omega arith
counter-count_status idle working s h = omega arith
counter-count_status idle idle s h = omega arith
counter-count_status idle unknown s h = omega arith
counter-count_status unknown blocked s h = omega arith
counter-count_status unknown done s h = omega arith
counter-count_status unknown working s h = omega arith
counter-count_status unknown idle s h = omega arith
counter-count_status unknown unknown s h = omega arith

abbrev none_yet : ℕ → AgentSummary
none_yet n = record {
  total = n;
  blocked_count = 0;
  done_count = 0;
  working_count = 0;
  idle_count = 0;
  unknown_count = 0;
  kinds = [];
}

counter-kinds :
    (wanted : AgentStatus) (s : AgentSummary) (ks : List String)
    → counter wanted (record s { kinds = ks }) ≡ counter wanted s
counter-kinds blocked s ks = refl
counter-kinds done s ks = refl
counter-kinds working s ks = refl
counter-kinds idle s ks = refl
counter-kinds unknown s ks = refl

bit_le : (wanted st : AgentStatus) → bit wanted st ≤ 1
unfolding bit
bit_le wanted st = ground arith

pub counter-summarise :
    (wanted : AgentStatus) (l : List AgentSnapshot) (s : AgentSummary)
    → counter wanted s + length l < 2 ^ 32
    → counter wanted (summarise l s) ≡ counter wanted s + count wanted l
unfolding summarise count
counter-summarise wanted [] s h = omega arith
counter-summarise wanted (a ∷ rest) s h =
    let t = count_status a.status s in
    let ks = add_kind a.kind t.kinds in
    let e = counter-kinds wanted t ks in
    let step = counter-count_status wanted a.status s (omega arith) in
    omega (
      arith,
      step,
      e,
      counter-summarise wanted rest (record t { kinds = ks })
          (omega (arith, step, e, bit_le wanted a.status)),
    )

pub count-put_agent :
    (wanted : AgentStatus) (a : AgentSnapshot) (bs : List AgentSnapshot)
    → count wanted (put_agent a bs) ≡ count wanted (a ∷ bs)
unfolding put_agent count
count-put_agent wanted a [] = refl
count-put_agent wanted a (b ∷ bs) =
    if_keeps (λ (l : List AgentSnapshot). count wanted l ≡ count wanted (a ∷ b ∷ bs))
      (key_le (sort_key b) (sort_key a)) (a ∷ b ∷ bs) (b ∷ put_agent a bs) refl
      (omega (arith, count-put_agent wanted a bs))

fresh-NoRepeat :
    (k : String) (ks : List String)
    → contains k ks ≡ false
    → NoRepeat ks
    → NoRepeat (ks ++ (k ∷ []))
unfolding contains
fresh-NoRepeat k [] h n = (refl, tt)
fresh-NoRepeat k (j ∷ ks) h n =
    ground (arith, contains-append j ks (k ∷ []), fresh-NoRepeat k ks (ground arith) n.1)

-- A list of kinds that agents add to: none is there twice, and there are no more than the cap; all
-- of `old` are kept.
pub record Kinds (old ks : List String) : Type 0 where
  pub distinct : NoRepeat ks
  pub few : length ks ≤ summary_kinds_cap
  pub longer : length old ≤ length ks
  pub kept : (k : String) → contains k old ≡ true → contains k ks ≡ true

add_kind-Kinds : (j : String) (old ks : List String) → Kinds old ks → Kinds old (add_kind j ks)
unfolding add_kind
add_kind-Kinds j old ks v =
    let room = ltb (length ks) summary_kinds_cap in
    elim (Bool-cases (room && not (contains j ks))) [
      | inl e ↦ rw (e) (record {
        distinct = fresh-NoRepeat j ks (ground arith) v.distinct;
        few = ground (arith, e, length-append ks (j ∷ []));
        longer = omega (arith, v.longer, length-append ks (j ∷ []));
        kept = λ k h. ground (arith, contains-append k ks (j ∷ []), v.kept k h);
      })
      | inr e ↦ rw (e) v
    ]

-- A kind is listed once it was added, or the list is full.
contains-add_kind :
    (j : String) (ks : List String)
    → length (add_kind j ks) < summary_kinds_cap
    → contains j (add_kind j ks) ≡ true
unfolding add_kind contains
contains-add_kind j ks h =
    elim (Bool-cases (ltb (length ks) summary_kinds_cap && not (contains j ks))) [
      | inl e ↦ rw (e) (ground (arith, contains-append j ks (j ∷ [])))
      | inr e ↦ ground (arith, e, h)
    ]

kinds-count_status : (st : AgentStatus) (s : AgentSummary) → (count_status st s).kinds ≡ s.kinds
unfolding count_status
kinds-count_status blocked s = refl
kinds-count_status done s = refl
kinds-count_status working s = refl
kinds-count_status idle s = refl
kinds-count_status unknown s = refl

summarise-Kinds :
    (l : List AgentSnapshot) (old : List String) (s : AgentSummary)
    → Kinds old s.kinds
    → Kinds old (summarise l s).kinds
unfolding summarise
summarise-Kinds [] old s v = v
summarise-Kinds (a ∷ rest) old s v =
    let t = count_status a.status s in
    summarise-Kinds rest old (record t { kinds = add_kind a.kind t.kinds })
      (add_kind-Kinds a.kind old t.kinds
        (subst (λ (ks : List String). Kinds old ks) (sym (kinds-count_status a.status s)) v))

at_rest : (old ks : List String) → Kinds old ks → Kinds ks ks
at_rest old ks v = record {
  distinct = v.distinct;
  few = v.few;
  longer = omega arith;
  kept = λ k h. h;
}

pub summarise-listed :
    (l : List AgentSnapshot) (s : AgentSummary)
    → Kinds s.kinds s.kinds
    → length (summarise l s).kinds < summary_kinds_cap
    → All (λ a. contains a.kind (summarise l s).kinds ≡ true) l
unfolding summarise
summarise-listed [] s v h = tt
summarise-listed (a ∷ rest) s v h =
    let t = count_status a.status s in
    let ks = add_kind a.kind t.kinds in
    let t' = record t { kinds = ks } in
    let u : Kinds s.kinds ks =
      add_kind-Kinds a.kind s.kinds t.kinds
        (subst (λ (js : List String). Kinds s.kinds js) (sym (kinds-count_status a.status s)) v) in
    let w : Kinds ks ks = at_rest s.kinds ks u in
    let z : Kinds ks (summarise rest t').kinds = summarise-Kinds rest ks t' w in
    (
      z.kept a.kind (contains-add_kind a.kind t.kinds (omega (arith, h, z.longer))),
      summarise-listed rest t' w h,
    )

-- The summary of fewer than 2^32 agents.
pub record Summarised (l : List AgentSnapshot) (s : AgentSummary) : Type 0 where
  pub total : s.total ≡ length l
  pub counts : (wanted : AgentStatus) → counter wanted s ≡ count wanted l
  pub distinct : NoRepeat s.kinds
  pub few : length s.kinds ≤ summary_kinds_cap
  pub listed : length s.kinds < summary_kinds_cap → All (λ a. contains a.kind s.kinds ≡ true) l

total-count_status : (st : AgentStatus) (s : AgentSummary) → (count_status st s).total ≡ s.total
unfolding count_status
total-count_status blocked s = refl
total-count_status done s = refl
total-count_status working s = refl
total-count_status idle s = refl
total-count_status unknown s = refl

total-summarise : (l : List AgentSnapshot) (s : AgentSummary) → (summarise l s).total ≡ s.total
unfolding summarise
total-summarise [] s = refl
total-summarise (a ∷ rest) s =
    let t = count_status a.status s in
    total-summarise rest (record t { kinds = add_kind a.kind t.kinds })
    ∙ total-count_status a.status s

counter-none : (wanted : AgentStatus) (n : ℕ) → counter wanted (none_yet n) ≡ 0
counter-none blocked n = refl
counter-none done n = refl
counter-none working n = refl
counter-none idle n = refl
counter-none unknown n = refl

pub summary_of-Summarised :
    (l : List AgentSnapshot) → length l < 2 ^ 32 → Summarised l (summary_of l)
unfolding summary_of
summary_of-Summarised l h =
    let s = none_yet (length l % 2 ^ 32) in
    let v : Kinds [] [] = record {
      distinct = tt;
      few = omega arith;
      longer = omega arith;
      kept = λ k h. h;
    } in
    let u = summarise-Kinds l [] s v in
    record {
      total = omega (arith, total-summarise l s);
      counts = λ wanted. omega (
        arith,
        counter-none wanted (length l % 2 ^ 32),
        counter-summarise wanted l s (omega (arith, counter-none wanted (length l % 2 ^ 32))),
      );
      distinct = u.distinct;
      few = u.few;
      listed = summarise-listed l s v;
    }
