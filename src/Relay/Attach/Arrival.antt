-- ===== src/Relay/Attach/Arrival.antt =====
-- What eviction promises: one live holder for each key, and the latest attach is the one.
use muxr_core.Base.{
  Map, not, ℕ, ◌≤◌, ◌<◌, ◌≡◌, ◌≢◌, refl, ◌∙◌, ◌↔◌, inl, inr, String, Option, none, some,
  Option-cases, Bool, true, false, All-get_elem?, get_elem?, lookup, lookup-insert, ltb,
  if◌then◌else◌, dec_lt, arith,
}
use muxr_core.Relay.Attach.{
  AttachKey, AttachSlot, AttachRegistry, AttachLease, is_fired, fire, register, holder, is_evicted,
  attach_key_key,
}
use muxr_core.Relay.Attach.Register.{
  Sound, is_fired-insert, after_stale, after_over, register_stale, register_over, slot, created,
}
use muxr_core.Relay.Attach.Exclusive.{Inv, initial-Inv, attached-Inv, Current, Signed}
use muxr_core.Relay.Attach.Leave.{ended-Inv}
use muxr_core.Relay.Attach.World.{
  Relay, World, attach, finish, Reach, start, next, Apart-unique, Owned-index,
}

pub Reach-Inv : {w : World} → Reach w → Inv w
Reach-Inv start = initial-Inv
Reach-Inv (next r (attach w key c arrival f)) = attached-Inv w key c arrival f (Reach-Inv r)
Reach-Inv (next r (finish w n x e)) = ended-Inv w n x e (Reach-Inv r)

slot_of :
    (reg : AttachRegistry) (k : AttachKey) (c : String)
    → holder reg k ≡ some c
    → (s : AttachSlot) × (lookup k reg.slots ≡ some s) × (s.connection_id ≡ c)
unfolding holder
slot_of reg k c h = ground arith

unevicted :
    (reg : AttachRegistry) (l : AttachLease) (a : ℕ)
    → l.signal ≡ some a
    → is_fired reg.fired a ≡ false
    → is_evicted reg l ≡ false
unfolding is_evicted
unevicted reg l a e f = ground arith

module _ (w : World) (reached : Reach w) (k : AttachKey) where
  standing :
      (i : ℕ) (r : Relay)
      → get_elem? w.relays i ≡ some r
      → r.lease.key ≡ some k
      → is_evicted w.registry r.lease ≡ false
      → (s : AttachSlot) × (lookup k w.registry.slots ≡ some s)
        × (s.connection_id ≡ r.lease.connection_id)
  unfolding is_evicted
  standing i r e h f = elim (Option-cases r.lease.signal) [
    | inl n ↦ absurd (All-get_elem? Signed i w.relays r e (Reach-Inv reached).signed k h n)
    | inr (a, ha) ↦
        let current =
          All-get_elem? (Current w.registry) i w.relays r e (Reach-Inv reached).current in
        (
          record { connection_id = r.lease.connection_id; signal = a; arrival = r.arrival },
          (current k a h ha).1 (ground arith),
          refl,
        )
  ]

  -- In every reachable state, of the live relays whose leases are on one key at most one is not
  -- evicted.
  pub exclusive :
      (i j : ℕ) (r s : Relay)
      → get_elem? w.relays i ≡ some r
      → get_elem? w.relays j ≡ some s
      → r.lease.key ≡ some k
      → s.lease.key ≡ some k
      → is_evicted w.registry r.lease ≡ false
      → is_evicted w.registry s.lease ≡ false
      → i ≡ j
  exclusive i j r s ei ej hr hs fr fs =
      let (a, la, ca) = standing i r ei hr fr in
      let (b, lb, cb) = standing j s ej hs fs in
      Apart-unique w.relays i j r s (Reach-Inv reached).apart ei ej (ground arith)

  -- In every reachable state the registry names a connection for a key exactly if a live relay
  -- with a lease on the key and that connection is not evicted.
  pub holder_iff :
      (c : String)
      → (holder w.registry k ≡ some c) ↔ (
          (i : ℕ) × (r : Relay) × (get_elem? w.relays i ≡ some r)
          × (r.lease.key ≡ some k)
          × (r.lease.connection_id ≡ c)
          × (is_evicted w.registry r.lease ≡ false))
  holder_iff c = (found, λ x. stands x.0 x.1 x.2 x.3 x.4 x.5)
    where
      stands :
          (i : ℕ) (r : Relay)
          → get_elem? w.relays i ≡ some r
          → r.lease.key ≡ some k
          → r.lease.connection_id ≡ c
          → is_evicted w.registry r.lease ≡ false
          → holder w.registry k ≡ some c
      stands i r e h p f =
          let (s, l, q) = standing i r e h f in unfold holder in rw (l, holder) (ground arith)

      found :
          holder w.registry k ≡ some c
          → (i : ℕ) × (r : Relay) × (get_elem? w.relays i ≡ some r)
            × (r.lease.key ≡ some k)
            × (r.lease.connection_id ≡ c)
            × (is_evicted w.registry r.lease ≡ false)
      found h =
          let (s, l, q) = slot_of w.registry k c h in
          let v = Reach-Inv reached in
          let (i, r, e, o) = Owned-index k s w.relays (v.owned k s l) in
          (
            i,
            r,
            e,
            o.0,
            o.1 ∙ q,
            unevicted w.registry r.lease s.signal o.2 (v.sound.unfired k s l).0,
          )

module _ (reg : AttachRegistry) (k : AttachKey) (c : String) (arrival : ℕ) (old : AttachSlot)
    (v : Sound reg) (h : lookup k reg.slots ≡ some old) where
  Held : AttachRegistry → Option String → Type 0
  Held reg' evicted =
      let lease : AttachLease = record {
        key = some k;
        connection_id = c;
        signal = some reg.next;
      } in
      let stale = ltb arrival old.arrival in
      (is_evicted reg' lease ≡ stale)
      × (is_fired reg'.fired old.signal ≡ not stale)
      × (evicted ≡ (if stale then none else some old.connection_id))
      × (holder reg' k ≡ some (if stale then old.connection_id else c))
      × ((j : AttachKey) → j ≢ k → lookup j reg'.slots ≡ lookup j reg.slots)

  Held-stale : arrival < old.arrival → Held (after_stale reg k c arrival) none
  unfolding Held is_evicted holder fire
  Held-stale lt = (
    ground (arith, is_fired-insert fired reg.next reg.next true),
    ground (
      arith,
      v.unfired k old h,
      is_fired-insert reg.fired reg.next old.signal false,
      is_fired-insert fired reg.next old.signal true,
    ),
    ground arith,
    ground arith,
    λ j ne. refl,
  )
    where
      fired : Map ℕ Bool
      fired = created reg k c arrival

  Held-over : old.arrival ≤ arrival → Held (after_over reg k c arrival old) (some old.connection_id)
  unfolding Held is_evicted holder fire
  Held-over le = (
    ground (
      arith,
      v.unfired k old h,
      is_fired-insert reg.fired reg.next reg.next false,
      is_fired-insert fired old.signal reg.next true,
    ),
    ground (arith, is_fired-insert fired old.signal old.signal true),
    ground arith,
    ground (arith, lookup-insert k k (slot reg k c arrival) reg.slots),
    λ j ne. ground (arith, lookup-insert k j (slot reg k c arrival) reg.slots),
  )
    where
      fired : Map ℕ Bool
      fired = created reg k c arrival

-- When a key is held, registering it leaves the later of the two arrivals in place: the new lease
-- is evicted exactly if it arrived earlier, the old holder exactly if it did not, and the
-- connection reported as evicted is the old holder's in that case and none otherwise. No other key
-- changes hands.
pub register_held :
    (reg : AttachRegistry) (k : AttachKey) (c : String) (arrival : ℕ) (old : AttachSlot)
    → Sound reg
    → lookup k reg.slots ≡ some old
    → let (reg', lease, evicted) = register reg (some k) c arrival in
      let stale = ltb arrival old.arrival in
      (is_evicted reg' lease ≡ stale)
      × (is_fired reg'.fired old.signal ≡ not stale)
      × (evicted ≡ (if stale then none else some old.connection_id))
      × (holder reg' k ≡ some (if stale then old.connection_id else c))
      × ((j : AttachKey) → j ≢ k → lookup j reg'.slots ≡ lookup j reg.slots)
unfolding register Held
register_held reg k c arrival old v h = elim (dec_lt arrival old.arrival) [
  | yes lt ↦ rw (register_stale reg k c arrival old h lt) (Held-stale reg k c arrival old v h lt)
  | no ge ↦
      rw (register_over reg k c arrival old h (omega arith))
        (Held-over reg k c arrival old v h (omega arith))
]
