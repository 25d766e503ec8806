-- ===== src/Relay/Attach/Leave.antt =====
-- A relay that ends gives up its slot, and never its successor's.
use muxr_core.Base.{
  ℕ, ◌≡◌, ◌≢◌, refl, inl, inr, String, Option, none, some, List, [], ◌∷◌, sym, ap, All,
  All-remove_at, get_elem?, remove_at, lookup, lookup-remove, string_discrete, arith,
}
use muxr_core.Relay.Attach.{
  AttachKey, AttachSlot, AttachRegistry, AttachLease, deregister, drop_lease, attach_key_key,
  attach_key_discrete,
}
use muxr_core.Relay.Attach.Exclusive.{Inv, Current}
use muxr_core.Relay.Attach.World.{
  Relay, World, ended, Fresh, Fresh-removed, Apart-remove_at, Owned-remove_at,
}

module _ (reg : AttachRegistry) (key : AttachKey) (c : String) (k : AttachKey)
    (s : AttachSlot) where
  deregister_kept :
      lookup k (deregister reg key c).0.slots ≡ some s
      → (lookup k reg.slots ≡ some s) × ((key ≡ k) × (s.connection_id ≡ c) → ⊥)
  unfolding deregister
  deregister_kept h = (
    ground (arith, lookup-remove key k reg.slots),
    λ p. ground (arith, p, lookup-remove key k reg.slots),
  )

  deregister_keeps :
      lookup k reg.slots ≡ some s
      → ((key ≡ k) × (s.connection_id ≡ c) → ⊥)
      → lookup k (deregister reg key c).0.slots ≡ some s
  unfolding deregister
  deregister_keeps h n = elim (attach_key_discrete key k) [
    | yes p ↦ elim (string_discrete s.connection_id c) [
      | yes q ↦ absurd (n (p, q))
      | no q ↦ ground (arith, lookup-remove key k reg.slots)
    ]
    | no p ↦ ground (arith, lookup-remove key k reg.slots)
  ]

deregister_same :
    (reg : AttachRegistry) (key : AttachKey) (c : String)
    → ((deregister reg key c).0.fired ≡ reg.fired) × ((deregister reg key c).0.next ≡ reg.next)
unfolding deregister
deregister_same reg key c = ground arith

-- A relay that ends takes exactly the slot of its key that names its own connection.
pub record Left (reg : AttachRegistry) (l : AttachLease) (reg' : AttachRegistry) : Type 0 where
  pub kept :
      (k : AttachKey) (s : AttachSlot)
      → lookup k reg'.slots ≡ some s
      → (lookup k reg.slots ≡ some s) × ((l.key ≡ some k) × (s.connection_id ≡ l.connection_id) → ⊥)
  pub keeps :
      (k : AttachKey) (s : AttachSlot)
      → lookup k reg.slots ≡ some s
      → ((l.key ≡ some k) × (s.connection_id ≡ l.connection_id) → ⊥)
      → lookup k reg'.slots ≡ some s
  pub signals : reg'.fired ≡ reg.fired
  pub addresses : reg'.next ≡ reg.next

drop_lease-Left :
    (reg : AttachRegistry) (key : Option AttachKey) (c : String) (signal : Option ℕ)
    → let l : AttachLease = record { key = key; connection_id = c; signal = signal } in
      Left reg l (drop_lease reg l)
unfolding drop_lease
drop_lease-Left reg none c signal = record {
  kept = λ k s h. (h, λ p. cc p.0);
  keeps = λ k s h n. h;
  signals = refl;
  addresses = refl;
}
drop_lease-Left reg (some key) c signal = record {
  kept = λ k s h. let (e, n) = deregister_kept reg key c k s h in (e, λ p. n (cc p.0, p.1));
  keeps = λ k s h n. deregister_keeps reg key c k s h (λ p. n (ap some p.0, p.1));
  signals = (deregister_same reg key c).0;
  addresses = (deregister_same reg key c).1;
}

pub ended-Inv :
    (w : World) (n : ℕ) (r : Relay) → get_elem? w.relays n ≡ some r → Inv w → Inv (ended w n r)
unfolding ended
ended-Inv w n r e v = record {
  sound = record {
    unfired =
        λ k s h. ground (arith, left.kept k s h, left.signals, left.addresses, v.sound.unfired k s);
    apart = λ j k s t h i p. v.sound.apart j k s t (left.kept j s h).0 (left.kept k t i).0 p;
  };
  current =
      current (remove_at n w.relays) (All-remove_at _ n w.relays v.current)
        (Fresh-removed w.relays n r v.apart e);
  owned = λ k s h. elim (Owned-remove_at k s w.relays n r e (v.owned k s (left.kept k s h).0)) [
    | inl (p, q, _) ↦ absurd ((left.kept k s h).1 (p, sym q))
    | inr o ↦ o
  ];
  apart = Apart-remove_at w.relays n v.apart;
  signed = All-remove_at _ n w.relays v.signed;
}
  where
    reg' : AttachRegistry
    reg' = drop_lease w.registry r.lease

    left : Left w.registry r.lease reg'
    left = drop_lease-Left w.registry r.lease.key r.lease.connection_id r.lease.signal

    one :
        (s : Relay)
        → s.lease.connection_id ≢ r.lease.connection_id
        → Current w.registry s
        → Current reg' s
    one s ne u k a ek ea =
        let (below, stands) = u k a ek ea in
        (
          ground (arith, left.addresses),
          λ f.
              left.keeps k
                (record { connection_id = s.lease.connection_id; signal = a; arrival = s.arrival })
                (stands (rw left.signals at f)) (λ p. ne p.1),
        )

    current :
        (rs : List Relay)
        → All (Current w.registry) rs
        → Fresh r.lease.connection_id rs
        → All (Current reg') rs
    current [] a f = tt
    current (s ∷ rs) a f = (one s f.0 a.0, current rs a.1 f.1)
