-- ===== src/Relay/Attach/World.antt =====
-- The registry together with the relays that hold its leases, and the steps of the whole: a relay
-- attaches, or a relay ends and drops its lease. Any relay may move next.
use muxr_core.Base.{
  ℕ, zero, suc, ◌≡◌, ◌≢◌, refl, sym, ap, ◌⊎◌, inl, inr, String, Option, some, List, [], ◌∷◌, All,
  get_elem?, remove_at, arith, subst,
}
use muxr_core.Relay.Attach.{
  AttachKey, AttachSlot, AttachRegistry, AttachLease, new, register, drop_lease,
}

-- A live relay: its lease, and the arrival stamp under which it registered.
pub record Relay : Type 0 where
  pub lease : AttachLease
  pub arrival : ℕ

pub record World : Type 0 where
  pub registry : AttachRegistry
  pub relays : List Relay

abbrev pub initial : World
initial = record { registry = new; relays = [] }

unfoldable pub attached : World → Option AttachKey → String → ℕ → World
unfolding register
attached w key connection_id arrival =
    let (reg, lease, evicted) = register w.registry key connection_id arrival in
    record { registry = reg; relays = record { lease = lease; arrival = arrival } ∷ w.relays }

unfoldable pub ended : World → ℕ → Relay → World
ended w n r = record { registry = drop_lease w.registry r.lease; relays = remove_at n w.relays }

abbrev pub Fresh : String → List Relay → Type 0
Fresh c = All (λ r. r.lease.connection_id ≢ c)

-- `connection_id`s are drawn at random and do not repeat among the live relays.
pub data Step : World → World → Type 0 where
  attach :
      (w : World) (key : Option AttachKey) (connection_id : String) (arrival : ℕ)
      → Fresh connection_id w.relays
      → Step w (attached w key connection_id arrival)
  finish : (w : World) (n : ℕ) (r : Relay) → get_elem? w.relays n ≡ some r → Step w (ended w n r)

pub data Reach : World → Type 0 where
  start : Reach initial
  next : {w v : World} → Reach w → Step w v → Reach v

-- No two of the relays have one connection id.
abbrev pub Apart : List Relay → Type 0
Apart [] = Unit
Apart (r ∷ rs) = Fresh r.lease.connection_id rs × Apart rs

pub Fresh-get_elem? :
    (c : String) (rs : List Relay) (n : ℕ) (r : Relay)
    → Fresh c rs
    → get_elem? rs n ≡ some r
    → r.lease.connection_id ≢ c
unfolding get_elem?
Fresh-get_elem? c [] n r f e = cc
Fresh-get_elem? c (x ∷ rs) zero r f e = ground (arith, f.0)
Fresh-get_elem? c (x ∷ rs) (suc n) r f e = Fresh-get_elem? c rs n r f.1 e

pub Fresh-remove_at : (c : String) (rs : List Relay) (n : ℕ) → Fresh c rs → Fresh c (remove_at n rs)
unfolding remove_at
Fresh-remove_at c [] n f = tt
Fresh-remove_at c (x ∷ rs) zero f = f.1
Fresh-remove_at c (x ∷ rs) (suc n) f = (f.0, Fresh-remove_at c rs n f.1)

pub Apart-remove_at : (rs : List Relay) (n : ℕ) → Apart rs → Apart (remove_at n rs)
unfolding remove_at
Apart-remove_at [] n a = tt
Apart-remove_at (x ∷ rs) zero a = a.1
Apart-remove_at (x ∷ rs) (suc n) a = (Fresh-remove_at _ rs n a.0, Apart-remove_at rs n a.1)

-- A removed relay's connection id is gone.
pub Fresh-removed :
    (rs : List Relay) (n : ℕ) (r : Relay)
    → Apart rs
    → get_elem? rs n ≡ some r
    → Fresh r.lease.connection_id (remove_at n rs)
unfolding get_elem? remove_at
Fresh-removed [] n r a e = tt
Fresh-removed (x ∷ rs) zero r a e =
    let p : x ≡ r = ground arith in subst (λ (y : Relay). Fresh y.lease.connection_id rs) p a.0
Fresh-removed (x ∷ rs) (suc n) r a e =
    ((λ p. Fresh-get_elem? x.lease.connection_id rs n r a.0 e (sym p)), Fresh-removed rs n r a.1 e)

-- One connection id stands at one place.
pub Apart-unique :
    (rs : List Relay) (i j : ℕ) (r s : Relay)
    → Apart rs
    → get_elem? rs i ≡ some r
    → get_elem? rs j ≡ some s
    → r.lease.connection_id ≡ s.lease.connection_id
    → i ≡ j
unfolding get_elem?
Apart-unique [] i j r s a e f p = cc
Apart-unique (x ∷ rs) zero zero r s a e f p = refl
Apart-unique (x ∷ rs) zero (suc j) r s a e f p =
    ground (arith, Fresh-get_elem? x.lease.connection_id rs j s a.0 f)
Apart-unique (x ∷ rs) (suc i) zero r s a e f p =
    ground (arith, Fresh-get_elem? x.lease.connection_id rs i r a.0 e)
Apart-unique (x ∷ rs) (suc i) (suc j) r s a e f p = ap suc (Apart-unique rs i j r s a.1 e f p)

-- Some relay among `rs` holds the slot of the key.
abbrev pub Owns : AttachKey → AttachSlot → Relay → Type 0
Owns k slot r =
    (r.lease.key ≡ some k)
    × (r.lease.connection_id ≡ slot.connection_id)
    × (r.lease.signal ≡ some slot.signal)

abbrev pub Owned : AttachKey → AttachSlot → List Relay → Type 0
Owned k slot [] = ⊥
Owned k slot (r ∷ rs) = Owns k slot r ⊎ Owned k slot rs

pub Owned-remove_at :
    (k : AttachKey) (slot : AttachSlot) (rs : List Relay) (n : ℕ) (r : Relay)
    → get_elem? rs n ≡ some r
    → Owned k slot rs
    → Owns k slot r ⊎ Owned k slot (remove_at n rs)
unfolding get_elem? remove_at
Owned-remove_at k slot [] n r e o = absurd o
Owned-remove_at k slot (x ∷ rs) zero r e (inl o) = inl (ground arith, ground arith, ground arith)
Owned-remove_at k slot (x ∷ rs) zero r e (inr o) = inr o
Owned-remove_at k slot (x ∷ rs) (suc n) r e (inl o) = inr (inl o)
Owned-remove_at k slot (x ∷ rs) (suc n) r e (inr o) = elim (Owned-remove_at k slot rs n r e o) [
  | inl p ↦ inl p
  | inr p ↦ inr (inr p)
]

pub Owned-index :
    (k : AttachKey) (slot : AttachSlot) (rs : List Relay)
    → Owned k slot rs
    → (i : ℕ) × (r : Relay) × (get_elem? rs i ≡ some r) × Owns k slot r
unfolding get_elem?
Owned-index k slot [] o = absurd o
Owned-index k slot (x ∷ rs) (inl o) = (0, x, refl, o)
Owned-index k slot (x ∷ rs) (inr o) = let (i, r, e, p) = Owned-index k slot rs o in (suc i, r, e, p)
