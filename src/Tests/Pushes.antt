-- ===== src/Tests/Pushes.antt =====
-- The witnesses of muxrd/src/notify.
use muxr_core.Base.{
  ◌≡◌, refl, ℕ, some, true, false, List, [], ◌∷◌, Distinct, lookup, retain, ℕ_discrete, arith,
  if◌then◌else◌,
}
use muxr_core.Routing.Names.{Bytes, bytes_discrete}
use muxr_core.Notify.Devices.{
  PushDevice, holds, load, put, keep, same_text, upsert, remove_by_handle, store, remove_where,
}
use muxr_core.Notify.Devices.Store.{device_of, Unique, UniqueFile, upsert-device_of}
use muxr_core.Notify.Sender.{
  PaneKind, pane_kind_key, pane_kind_discrete, trigger_discrete, blocked_trigger, Debouncer,
  debounce_window, should_send,
}
use muxr_core.Notify.Sender.Debounce.{decided, should_send-decided}

abbrev phone : PushDevice
phone = record { device_name = 1 ∷ []; push_handle = 7 ∷ []; platform = []; registered_at = 5 }

abbrev tablet : PushDevice
tablet = record { device_name = 2 ∷ []; push_handle = 8 ∷ []; platform = []; registered_at = 6 }

abbrev devices : List PushDevice
devices = phone ∷ tablet ∷ []

abbrev refreshed : PushDevice
refreshed = record phone { push_handle = 9 ∷ [] }

devices-Unique : UniqueFile (holds devices)
unfolding device_of bytes_discrete ℕ_discrete
devices-Unique = (refl, (refl, tt))

devices-load : load (holds devices) ≡ some devices
unfolding load
devices-load = refl

upsert-device_of_example :
    (upsert true (holds devices) refreshed ≡ (holds (put refreshed devices), true))
    × Unique (put refreshed devices)
    × ((name : Bytes)
        → device_of name (put refreshed devices) ≡ (
            if same_text refreshed.device_name name
            then some refreshed
            else device_of name devices))
upsert-device_of_example =
    upsert-device_of (holds devices) devices refreshed devices-load devices-Unique

phone_removed : (remove_by_handle true (holds devices) (7 ∷ [])).1 ≡ some true
unfolding remove_by_handle remove_where store keep load bytes_discrete ℕ_discrete
phone_removed = refl

abbrev quiet : Debouncer
quiet = record { last_sent = []; window = debounce_window }

abbrev spot : PaneKind
spot = record { pane = 3; kind = blocked_trigger }

spot_passes : (should_send quiet spot 100).1 ≡ true
unfolding should_send lookup retain
spot_passes = refl

abbrev between : List (PaneKind × ℕ)
between = (record spot { pane = 4 }, 150) ∷ (spot, 200) ∷ []

should_send-decided_example :
    (should_send (decided (should_send quiet spot 100).0 between) spot 300).1 ≡ false
should_send-decided_example =
    should_send-decided quiet spot 100 300 between tt spot_passes
      ((omega arith, omega arith), ((omega arith, omega arith), tt)) (omega arith, omega arith)

abbrev sent_before : Debouncer
sent_before = record quiet { last_sent = (spot, 100) ∷ [] }

spot_last : lookup spot sent_before.last_sent ≡ some 100
unfolding lookup pane_kind_discrete trigger_discrete ℕ_discrete
spot_last = refl

sent_before-Distinct : Distinct sent_before.last_sent
unfolding lookup
sent_before-Distinct = (refl, tt)
