-- ===== src/Relay/Attach/Register.antt =====
-- The three outcomes of registering a key: it was free, a later attach holds it, or an earlier one
-- does and is evicted.
use muxr_core.Base.{
  ℕ, suc, ◌≤◌, ◌<◌, ◌≡◌, String, none, some, Bool, true, false, lookup, insert, lookup-insert,
  nat_key, ite, Map, ℕ_discrete, arith,
}
use muxr_core.Relay.Attach.{
  AttachKey, AttachSlot, AttachRegistry, is_fired, fire, vacant, occupied, register_key,
  attach_key_key,
}

-- The registry by itself: the signals of its slots are not fired, and no two slots share one.
pub record Sound (reg : AttachRegistry) : Type 0 where
  pub unfired :
      (k : AttachKey) (s : AttachSlot)
      → lookup k reg.slots ≡ some s
      → (is_fired reg.fired s.signal ≡ false) × (s.signal < reg.next)
  pub apart :
      (j k : AttachKey) (s t : AttachSlot)
      → lookup j reg.slots ≡ some s
      → lookup k reg.slots ≡ some t
      → s.signal ≡ t.signal
      → j ≡ k

pub is_fired-insert :
    (fired : Map ℕ Bool) (a b : ℕ) (v : Bool)
    → is_fired (insert a v fired) b ≡ ite (ℕ_discrete b a) v (is_fired fired b)
unfolding is_fired
is_fired-insert fired a b v = ground (arith, lookup-insert a b v fired)

module _ (reg : AttachRegistry) (key : AttachKey) (c : String) (arrival : ℕ) where
  abbrev pub slot : AttachSlot
  slot = record { connection_id = c; signal = reg.next; arrival = arrival }

  abbrev pub created : Map ℕ Bool
  created = insert reg.next false reg.fired

  -- The registry after each of the three ways in which a key is registered.
  abbrev pub after_vacant : AttachRegistry
  after_vacant = record { slots = insert key slot reg.slots; fired = created; next = suc reg.next }

  abbrev pub after_stale : AttachRegistry
  after_stale = record { slots = reg.slots; fired = fire created reg.next; next = suc reg.next }

  abbrev pub after_over : AttachSlot → AttachRegistry
  after_over old = record {
    slots = insert key slot reg.slots;
    fired = fire created old.signal;
    next = suc reg.next;
  }

  pub register_vacant :
      lookup key reg.slots ≡ none → register_key reg key c arrival ≡ (after_vacant, none)
  unfolding register_key vacant
  register_vacant h = rw (h, register_key)

  pub register_stale :
      (old : AttachSlot)
      → lookup key reg.slots ≡ some old
      → arrival < old.arrival
      → register_key reg key c arrival ≡ (after_stale, none)
  unfolding register_key occupied
  register_stale old h lt = rw (h, register_key) (ground arith)

  pub register_over :
      (old : AttachSlot)
      → lookup key reg.slots ≡ some old
      → old.arrival ≤ arrival
      → register_key reg key c arrival ≡ (after_over old, some old.connection_id)
  unfolding register_key occupied
  register_over old h le = rw (h, register_key) (ground arith)

  module _ (v : Sound reg) where
    pub vacant-Sound : lookup key reg.slots ≡ none → Sound after_vacant
    vacant-Sound h = record {
      unfired = λ k s e. ground (
        arith,
        v.unfired k s,
        lookup-insert key k slot reg.slots,
        is_fired-insert reg.fired reg.next s.signal false,
      );
      apart = λ j k s t e f p. ground (
        arith,
        v.unfired j s,
        v.unfired k t,
        v.apart j k s t,
        lookup-insert key j slot reg.slots,
        lookup-insert key k slot reg.slots,
      );
    }

    pub stale-Sound : Sound after_stale
    unfolding fire
    stale-Sound = record {
      unfired = λ k s e. ground (
        arith,
        v.unfired k s e,
        is_fired-insert reg.fired reg.next s.signal false,
        is_fired-insert created reg.next s.signal true,
      );
      apart = v.apart;
    }

    pub over-Sound : (old : AttachSlot) → lookup key reg.slots ≡ some old → Sound (after_over old)
    unfolding fire
    over-Sound old h = record {
      unfired = λ k s e. ground (
        arith,
        v.unfired k s,
        v.unfired key old h,
        v.apart k key s old,
        lookup-insert key k slot reg.slots,
        is_fired-insert reg.fired reg.next s.signal false,
        is_fired-insert created old.signal s.signal true,
      );
      apart = λ j k s t e f p. ground (
        arith,
        v.unfired j s,
        v.unfired k t,
        v.apart j k s t,
        lookup-insert key j slot reg.slots,
        lookup-insert key k slot reg.slots,
      );
    }
