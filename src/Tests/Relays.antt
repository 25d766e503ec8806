-- ===== src/Tests/Relays.antt =====
-- muxrd/src/relay.
use muxr_core.Base.{
  ℕ, ◌≡◌, ◌≢◌, refl, some, String, [], ◌∷◌, string_discrete, ℕ_discrete, lookup, insert, get_elem?,
  true, false, ◌↔◌,
}
use muxr_core.Relay.Attach.{
  AttachKey, AttachSlot, attach_key_key, attach_key_discrete, register, is_evicted, is_fired,
  holder,
}
use muxr_core.Relay.Attach.Arrival.{Reach-Inv, exclusive, holder_iff, register_held}
use muxr_core.Relay.Attach.World.{Relay, World, initial, attached, Reach, start, next, attach}
use text.Mathlib.TextEquality.{eq_iff}

abbrev key : AttachKey
key = record { token = 1 ∷ 2 ∷ []; instance_id = "phone" }

-- The phone attaches as c2, and then the older request, c1, is served.
abbrev raced : World
raced = attached (attached initial (some key) "c2" 2) (some key) "c1" 1

c2-ne-c1 : ◌≢◌ {A = String} "c2" "c1"
c2-ne-c1 e = cc ((eq_iff "c2" "c1").1 e)

raced-Reach : Reach raced
unfolding attached
raced-Reach =
    next (next start (attach initial (some key) "c2" 2 tt))
      (attach (attached initial (some key) "c2" 2) (some key) "c1" 1 (c2-ne-c1, tt))

raced_holder : holder raced.registry key ≡ some "c2"
unfolding attached holder lookup insert attach_key_discrete ℕ_discrete string_discrete
raced_holder = refl

abbrev winner : Relay
winner = record {
  lease = record { key = some key; connection_id = "c2"; signal = some 0 };
  arrival = 2;
}

exclusive_example : ◌≡◌ {A = ℕ} 1 1
unfolding attached get_elem? is_evicted lookup insert attach_key_discrete ℕ_discrete string_discrete
exclusive_example = exclusive raced raced-Reach key 1 1 winner winner refl refl refl refl refl refl

holder_iff_example : (holder raced.registry key ≡ some "c2") ↔ (
    (i : ℕ) × (r : Relay) × (get_elem? raced.relays i ≡ some r)
    × (r.lease.key ≡ some key)
    × (r.lease.connection_id ≡ "c2")
    × (is_evicted raced.registry r.lease ≡ false))
holder_iff_example = holder_iff raced raced-Reach key "c2"

abbrev second : AttachSlot
second = record { connection_id = "c2"; signal = 0; arrival = 2 }

abbrev claimed : World
claimed = attached initial (some key) "c2" 2

claimed-Reach : Reach claimed
unfolding attached
claimed-Reach = next start (attach initial (some key) "c2" 2 tt)

register_held_example :
    let (reg, lease, evicted) = register claimed.registry (some key) "c3" 3 in
    (is_evicted reg lease ≡ false)
    × (is_fired reg.fired 0 ≡ true)
    × (evicted ≡ some "c2")
    × (holder reg key ≡ some "c3")
    × ((j : AttachKey) → j ≢ key → lookup j reg.slots ≡ lookup j claimed.registry.slots)
unfolding attached lookup insert attach_key_discrete ℕ_discrete string_discrete
register_held_example =
    register_held claimed.registry key "c3" 3 second (Reach-Inv claimed-Reach).sound refl
