-- ===== src/Relay/Attach/Exclusive.antt =====
-- Of the relays that hold a lease on one key, at most one is not evicted, and it is the registry's
-- holder.
use muxr_core.Base.{
  ℕ, ◌<◌, ◌≡◌, ◌≢◌, inl, inr, String, Option, none, some, true, false, Option-cases, List, ◌∷◌, All,
  All-mono, lookup, insert, lookup-insert, nat_key, arith, dec_lt,
}
use muxr_core.Relay.Attach.{
  AttachKey, AttachSlot, AttachRegistry, is_fired, fire, register, attach_key_key,
  attach_key_discrete,
}
use muxr_core.Relay.Attach.Register.{
  Sound, is_fired-insert, slot, created, after_vacant, after_stale, after_over, register_vacant,
  register_stale, register_over, vacant-Sound, stale-Sound, over-Sound,
}
use muxr_core.Relay.Attach.World.{Relay, World, initial, attached, Fresh, Apart, Owned}

-- A lease that is not evicted stands in the registry.
abbrev pub Current : AttachRegistry → Relay → Type 0
Current reg r =
    (k : AttachKey) (a : ℕ)
    → r.lease.key ≡ some k
    → r.lease.signal ≡ some a
    → (a < reg.next)
      × (is_fired reg.fired a ≡ false
          → lookup k reg.slots
            ≡ some
                (record { connection_id = r.lease.connection_id; signal = a; arrival = r.arrival }))

-- A lease on a key has a signal.
abbrev pub Signed : Relay → Type 0
Signed r = (k : AttachKey) → r.lease.key ≡ some k → r.lease.signal ≢ none

pub record Inv (w : World) : Type 0 where
  pub sound : Sound w.registry
  pub current : All (Current w.registry) w.relays
  pub owned :
      (k : AttachKey) (s : AttachSlot) → lookup k w.registry.slots ≡ some s → Owned k s w.relays
  pub apart : Apart w.relays
  pub signed : All Signed w.relays

pub initial-Inv : Inv initial
unfolding lookup
initial-Inv = record {
  sound = record { unfired = λ k s h. cc; apart = λ j k s t h e p. cc };
  current = tt;
  owned = λ k s h. cc;
  apart = tt;
  signed = tt;
}

module _ (reg : AttachRegistry) (key : AttachKey) (c : String) (arrival : ℕ) (v : Sound reg) where
  abbrev newcomer : Relay
  newcomer = record {
    lease = record { key = some key; connection_id = c; signal = some reg.next };
    arrival = arrival;
  }

  vacant-Current :
      lookup key reg.slots ≡ none
      → (r : Relay) → Current reg r
      → Current (after_vacant reg key c arrival) r
  vacant-Current h r u k a ek ea =
      let (below, stands) = u k a ek ea in
      (
        ground arith,
        λ f. ground (
          arith,
          stands,
          lookup-insert key k (slot reg key c arrival) reg.slots,
          is_fired-insert reg.fired reg.next a false,
        ),
      )

  stale-Current : (r : Relay) → Current reg r → Current (after_stale reg key c arrival) r
  unfolding fire
  stale-Current r u k a ek ea =
      let (below, stands) = u k a ek ea in
      (
        ground arith,
        λ f. ground (
          arith,
          stands,
          is_fired-insert reg.fired reg.next a false,
          is_fired-insert (created reg key c arrival) reg.next a true,
        ),
      )

  over-Current :
      (old : AttachSlot)
      → lookup key reg.slots ≡ some old
      → (r : Relay) → Current reg r
      → Current (after_over reg key c arrival old) r
  unfolding fire
  over-Current old h r u k a ek ea =
      let (below, stands) = u k a ek ea in
      (
        ground arith,
        λ f. ground (
          arith,
          stands,
          lookup-insert key k (slot reg key c arrival) reg.slots,
          is_fired-insert reg.fired reg.next a false,
          is_fired-insert (created reg key c arrival) old.signal a true,
        ),
      )

  newcomer_vacant : Current (after_vacant reg key c arrival) newcomer
  newcomer_vacant k a ek ea =
      (ground arith, λ f. ground (arith, lookup-insert key k (slot reg key c arrival) reg.slots))

  newcomer_stale : Current (after_stale reg key c arrival) newcomer
  unfolding fire
  newcomer_stale k a ek ea = (
    ground arith,
    λ f. ground (arith, is_fired-insert (created reg key c arrival) reg.next a true),
  )

  newcomer_over : (old : AttachSlot) → Current (after_over reg key c arrival old) newcomer
  newcomer_over old k a ek ea =
      (ground arith, λ f. ground (arith, lookup-insert key k (slot reg key c arrival) reg.slots))

  Owned-insert :
      (rs : List Relay) (k : AttachKey) (s : AttachSlot)
      → (lookup k reg.slots ≡ some s → Owned k s rs)
      → lookup k (insert key (slot reg key c arrival) reg.slots) ≡ some s
      → Owned k s (newcomer ∷ rs)
  Owned-insert rs k s o h = elim (attach_key_discrete k key) [
    | yes p ↦
        let e : slot reg key c arrival ≡ s =
          ground (arith, lookup-insert key k (slot reg key c arrival) reg.slots) in
        inl (ground arith, ground (arith, e), ground (arith, e))
    | no n ↦ inr (o (ground (arith, lookup-insert key k (slot reg key c arrival) reg.slots)))
  ]

pub attached-Inv :
    (w : World) (key : Option AttachKey) (c : String) (arrival : ℕ)
    → Fresh c w.relays
    → Inv w
    → Inv (attached w key c arrival)
unfolding attached register
attached-Inv w none c arrival f v = record {
  sound = v.sound;
  current = ((λ k a ek ea. cc), v.current);
  owned = λ k s h. inr (v.owned k s h);
  apart = (f, v.apart);
  signed = ((λ k e. cc), v.signed);
}
attached-Inv w (some key) c arrival f v = elim (Option-cases (lookup key w.registry.slots)) [
  | inl h ↦ rw (register_vacant w.registry key c arrival h) (record {
    sound = vacant-Sound w.registry key c arrival v.sound h;
    current = (
      newcomer_vacant w.registry key c arrival v.sound,
      All-mono _ _ w.relays (vacant-Current w.registry key c arrival v.sound h) v.current,
    );
    owned = λ k s. Owned-insert w.registry key c arrival v.sound w.relays k s (v.owned k s);
    apart = (f, v.apart);
    signed = ((λ k e p. cc), v.signed);
  })
  | inr (old, h) ↦ elim (dec_lt arrival old.arrival) [
    | yes lt ↦ rw (register_stale w.registry key c arrival old h lt) (record {
      sound = stale-Sound w.registry key c arrival v.sound;
      current = (
        newcomer_stale w.registry key c arrival v.sound,
        All-mono _ _ w.relays (stale-Current w.registry key c arrival v.sound) v.current,
      );
      owned = λ k s e. inr (v.owned k s e);
      apart = (f, v.apart);
      signed = ((λ k e p. cc), v.signed);
    })
    | no ge ↦ rw (register_over w.registry key c arrival old h (omega arith)) (record {
      sound = over-Sound w.registry key c arrival v.sound old h;
      current = (
        newcomer_over w.registry key c arrival v.sound old,
        All-mono _ _ w.relays (over-Current w.registry key c arrival v.sound old h) v.current,
      );
      owned = λ k s. Owned-insert w.registry key c arrival v.sound w.relays k s (v.owned k s);
      apart = (f, v.apart);
      signed = ((λ k e p. cc), v.signed);
    })
  ]
]
