-- ===== src/Relay/Attach.antt =====
-- muxrd/src/relay/types.rs: `AttachRegistry`, by which a client that attaches again takes its place
-- over from its own earlier relay. The signals are shared between the registry and the leases, so
-- they stand in a store of their own, by address. Each method holds its key's entry for the whole
-- call and is one step here.
pub mod World
pub mod Register
pub mod Exclusive
pub mod Leave
pub mod Arrival
use muxr_core.Base.{
  ℕ, suc, ◌≤◌, String, Option, none, some, Bool, true, false, if◌then◌else◌, ltb, ◌==◌, ◌||◌, Map,
  lookup, insert, remove, Key, nat_key, string_key, string_discrete, ℕ_discrete, List, [], ◌∷◌, ite,
  length,
}

abbrev pub Bytes : Type 0
Bytes = List ℕ

abbrev pub max_client_instance_id_len : ℕ
max_client_instance_id_len = 128

-- `TokenIdentity` is a digest of 32 bytes.
pub record AttachKey : Type 0 where
  pub token : Bytes
  pub instance_id : String

unfoldable pub attach_key_discrete : Discrete AttachKey
attach_key_discrete = hlevel (ℕ_discrete, string_discrete)

instance abbrev pub attach_key_key : Key AttachKey
attach_key_key = record { same = attach_key_discrete }

-- `AttachKey::new`. The digest and the count of a text's UTF-8 bytes are the libraries'.
pub new_key : (String → Bytes) → (String → ℕ) → Option String → String → Option AttachKey
new_key identity_of byte_len none id = none
new_key identity_of byte_len (some token) id =
    if byte_len id == 0 || ltb max_client_instance_id_len (byte_len id)
    then none
    else some (record { token = identity_of token; instance_id = id })

pub record AttachSlot : Type 0 where
  pub connection_id : String
  pub signal : ℕ
  pub arrival : ℕ

-- `fired` holds the signals that were created, and `next` is an address not in use.
pub record AttachRegistry : Type 0 where
  pub slots : Map AttachKey AttachSlot
  pub fired : Map ℕ Bool
  pub next : ℕ

abbrev pub new : AttachRegistry
new = record { slots = []; fired = []; next = 0 }

pub record AttachLease : Type 0 where
  pub key : Option AttachKey
  pub connection_id : String
  pub signal : Option ℕ

-- `EvictSignal::is_fired` and `fire`.
unfoldable pub is_fired : Map ℕ Bool → ℕ → Bool
is_fired fired a = elim (lookup a fired) [ none ↦ false | some b ↦ b ]

unfoldable pub fire : Map ℕ Bool → ℕ → Map ℕ Bool
fire fired a = insert a true fired

-- The two arms of the match on the entry, after the new signal was created at `reg.next`.
pub vacant : AttachRegistry → AttachKey → AttachSlot → AttachRegistry × Option String
vacant reg key slot = (record reg { slots = insert key slot reg.slots }, none)

pub occupied : AttachRegistry → AttachKey → AttachSlot → AttachSlot → AttachRegistry × Option String
occupied reg key slot old =
    if ltb slot.arrival old.arrival
    then (record reg { fired = fire reg.fired slot.signal }, none)
    else (
      record reg { slots = insert key slot reg.slots; fired = fire reg.fired old.signal },
      some old.connection_id,
    )

unfoldable pub register_key :
    AttachRegistry → AttachKey → String → ℕ → AttachRegistry × Option String
unfolding vacant occupied fire
register_key reg key connection_id arrival =
    let signal = reg.next in
    let slot : AttachSlot = record {
      connection_id = connection_id;
      signal = signal;
      arrival = arrival;
    } in
    let created : AttachRegistry = record reg {
      fired = insert signal false reg.fired;
      next = suc signal;
    } in
    elim (lookup key reg.slots) [
      | none ↦ vacant created key slot
      | some old ↦ occupied created key slot old
    ]

unfoldable pub register :
    AttachRegistry → Option AttachKey → String → ℕ → AttachRegistry × AttachLease × Option String
unfolding register_key
register reg none connection_id arrival =
    (reg, record { key = none; connection_id = connection_id; signal = none }, none)
register reg (some key) connection_id arrival =
    let (reg', evicted) = register_key reg key connection_id arrival in
    (
      reg',
      record { key = some key; connection_id = connection_id; signal = some reg.next },
      evicted,
    )

-- `DashMap::remove_if`, and whether a slot was removed.
unfoldable pub deregister : AttachRegistry → AttachKey → String → AttachRegistry × Bool
deregister reg key connection_id = elim (lookup key reg.slots) [
  | none ↦ (reg, false)
  | some slot ↦
      ite (string_discrete slot.connection_id connection_id)
        (record reg { slots = remove key reg.slots }, true) (reg, false)
]

unfoldable pub holder : AttachRegistry → AttachKey → Option String
holder reg key = elim (lookup key reg.slots) [ none ↦ none | some slot ↦ some slot.connection_id ]

pub len : AttachRegistry → ℕ
len reg = length reg.slots

unfoldable pub is_evicted : AttachRegistry → AttachLease → Bool
unfolding is_fired
is_evicted reg lease = elim lease.signal [ none ↦ false | some a ↦ is_fired reg.fired a ]

-- `AttachLease::drop`.
unfoldable pub drop_lease : AttachRegistry → AttachLease → AttachRegistry
unfolding deregister
drop_lease reg lease = elim lease.key [
  | none ↦ reg
  | some key ↦ (deregister reg key lease.connection_id).0
]
