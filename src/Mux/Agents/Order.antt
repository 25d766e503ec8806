-- ===== src/Mux/Agents/Order.antt =====
-- The order of the agents in muxrd/src/multiplexer/types.rs is that of a stable sort.
use muxr_core.Base.{
  ◌≡◌, refl, ◌∙◌, sym, ap, Bool, true, false, ◌&&◌, List, [], ◌∷◌, ◌==◌, if◌then◌else◌, arith, All,
  All-mono, if_keeps, Bool-cases, inl, inr,
}
use muxr_core.Mux.Agents.{AgentSnapshot, Key2, sort_key, key_le, put_agent, sort_agents}

unfoldable pub same_key : Key2 → AgentSnapshot → Bool
unfolding sort_key
same_key (p, n) a = (sort_key a).0 == p && (sort_key a).1 == n

-- The agents with that key, in their order.
unfoldable pub of_key : Key2 → List AgentSnapshot → List AgentSnapshot
unfolding same_key
of_key k [] = []
of_key k (a ∷ rest) = let after = of_key k rest in if same_key k a then a ∷ after else after

-- No key is larger than one before it.
abbrev pub Falling : List AgentSnapshot → Type 0
Falling [] = Unit
Falling (a ∷ rest) = All (λ b. key_le (sort_key b) (sort_key a) ≡ true) rest × Falling rest

key_le_trans : (x y z : Key2) → key_le x y ≡ true → key_le y z ≡ true → key_le x z ≡ true
unfolding key_le
key_le_trans x y z h k = ground arith

key_le-total : (x y : Key2) → key_le x y ≡ false → key_le y x ≡ true
unfolding key_le
key_le-total x y h = ground arith

-- Two agents with one key are not put in another order.
same_key-le :
    (k : Key2) (a b : AgentSnapshot)
    → same_key k a ≡ true
    → same_key k b ≡ true
    → key_le (sort_key b) (sort_key a) ≡ true
unfolding same_key key_le
same_key-le k a b h e = ground arith

swap_same :
    (b c : Bool) (x y : AgentSnapshot) (rest : List AgentSnapshot)
    → (b && c) ≡ false
    → (if b then x ∷ (if c then y ∷ rest else rest) else (if c then y ∷ rest else rest))
      ≡ (if c then y ∷ (if b then x ∷ rest else rest) else (if b then x ∷ rest else rest))
swap_same true true x y rest h = cc
swap_same true false x y rest h = refl
swap_same false true x y rest h = refl
swap_same false false x y rest h = refl

not_both :
    (k : Key2) (a b : AgentSnapshot)
    → key_le (sort_key b) (sort_key a) ≡ false
    → (same_key k a && same_key k b) ≡ false
not_both k a b e = ground (arith, e, same_key-le k a b)

put_agent-of_key :
    (k : Key2) (a : AgentSnapshot) (bs : List AgentSnapshot)
    → of_key k (put_agent a bs) ≡ of_key k (a ∷ bs)
unfolding put_agent of_key
put_agent-of_key k a [] = refl
put_agent-of_key k a (b ∷ bs) = elim (Bool-cases (key_le (sort_key b) (sort_key a))) [
  | inl e ↦ rw (e) refl
  | inr e ↦ rw (e) (
      ap (λ (r : List AgentSnapshot). if same_key k b then b ∷ r else r) (put_agent-of_key k a bs)
      ∙ sym (swap_same (same_key k a) (same_key k b) a b (of_key k bs) (not_both k a b e)))
]

put_agent-All :
    (P : AgentSnapshot → Type 0) (a : AgentSnapshot) (bs : List AgentSnapshot)
    → P a
    → All P bs
    → All P (put_agent a bs)
unfolding put_agent
put_agent-All P a [] p w = (p, tt)
put_agent-All P a (b ∷ bs) p w =
    if_keeps (All P) (key_le (sort_key b) (sort_key a)) (a ∷ b ∷ bs) (b ∷ put_agent a bs) (p, w)
      (w.0, put_agent-All P a bs p w.1)

put_agent-Falling :
    (a : AgentSnapshot) (bs : List AgentSnapshot) → Falling bs → Falling (put_agent a bs)
unfolding put_agent
put_agent-Falling a [] f = (tt, tt)
put_agent-Falling a (b ∷ bs) f = elim (Bool-cases (key_le (sort_key b) (sort_key a))) [
  | inl e ↦ rw (e) (
    (
      e,
      All-mono (λ (c : AgentSnapshot). key_le (sort_key c) (sort_key b) ≡ true)
          (λ (c : AgentSnapshot). key_le (sort_key c) (sort_key a) ≡ true) bs
          (λ c h. key_le_trans (sort_key c) (sort_key b) (sort_key a) h e) f.0,
    ),
    f,
  )
  | inr e ↦ rw (e) (
    put_agent-All (λ (c : AgentSnapshot). key_le (sort_key c) (sort_key b) ≡ true) a bs
        (key_le-total (sort_key b) (sort_key a) e) f.0,
    put_agent-Falling a bs f.1,
  )
]

-- The agents are put in falling order of their keys, and those of one key stay in the order in
-- which they came: none is lost, added or moved past another of its key.
pub sort_agents-Falling :
    (agents : List AgentSnapshot)
    → Falling (sort_agents agents) × ((k : Key2) → of_key k (sort_agents agents) ≡ of_key k agents)
unfolding sort_agents of_key
sort_agents-Falling [] = (tt, λ k. refl)
sort_agents-Falling (a ∷ rest) =
    let v = sort_agents-Falling rest in
    (
      put_agent-Falling a (sort_agents rest) v.0,
      λ k.
          put_agent-of_key k a (sort_agents rest)
          ∙ ap (λ (r : List AgentSnapshot). if same_key k a then a ∷ r else r) (v.1 k),
    )
