-- ===== src/Notify/Sender/Fanout.antt =====
-- muxrd/src/notify/sender.rs: what an event sends.
use muxr_core.Base.{
  ◌≡◌, ◌⊎◌, refl, ℕ, ◌+◌, ◌*◌, ◌≤◌, Option, none, some, Bool, ◌&&◌, List, [], ◌∷◌, length, arith,
  if_keeps, inl, inr,
}
use muxr_core.Notify.Devices.{PushDevice, File, list}
use muxr_core.Mux.Events.{AgentStatusChanged}
use muxr_core.Notify.Sender.{
  TriggerKind, trigger_kind, is_done, SendOutcome, transient, delivered, gone, rate_limited,
  NotifyContent, content_for, Sent, Notifier, send_with_retry, after_send, fan_out, notify_devices,
  with_devices, with_trigger, handle_event,
}

SendOutcome-cases :
    (o : SendOutcome) → ((o ≡ delivered) ⊎ (o ≡ gone)) ⊎ ((o ≡ rate_limited) ⊎ (o ≡ transient))
SendOutcome-cases delivered = inl (inl refl)
SendOutcome-cases gone = inl (inr refl)
SendOutcome-cases rate_limited = inr (inl refl)
SendOutcome-cases transient = inr (inr refl)

send_twice :
    (answer : List Sent → SendOutcome) (s : Sent) (log : List Sent)
    → length (send_with_retry answer s log).1 ≤ length log + 2
unfolding send_with_retry
send_twice answer s log = ground (arith, SendOutcome-cases (answer (s ∷ log)))

fan_out_bound :
    (answer : List Sent → SendOutcome) (writes : Bool) (c : NotifyContent) (ds : List PushDevice)
    (file : File) (log : List Sent)
    → length (fan_out answer writes c ds (file, log)).1 ≤ length log + 2 * length ds
unfolding fan_out
fan_out_bound answer writes c [] file log = omega arith
fan_out_bound answer writes c (d ∷ ds) file log =
    let r = send_with_retry answer (d.push_handle, c) log in
    omega (
      arith,
      send_twice answer (d.push_handle, c) log,
      fan_out_bound answer writes c ds (after_send writes d.push_handle r.0 file) r.1,
    )

-- The number of devices that can be read from the file.
abbrev pub counted : Option (List PushDevice) → ℕ
counted none = 0
counted (some ds) = length ds

unfoldable pub registered : File → ℕ
unfolding list
registered file = counted (list file)

-- At most `2 * m` sends more, and no change when `m` is 0.
abbrev pub Modest : ℕ → Notifier → Notifier → Type 0
Modest m n n' = (length n'.log ≤ length n.log + 2 * m) × (m ≡ 0 → n' ≡ n)

module _ (answer : List Sent → SendOutcome) (writes generic : Bool) (now : ℕ)
    (ev : AgentStatusChanged) (n : Notifier) where
  notify_devices_bound :
      (kind : TriggerKind) (ds : List PushDevice)
      → length (notify_devices answer writes generic now ev kind ds n).log
        ≤ length n.log + 2 * length ds
  unfolding notify_devices
  notify_devices_bound kind ds =
      ground (arith, fan_out_bound answer writes (content_for kind ev generic) ds n.file n.log)

  with_devices_bound :
      (kind : TriggerKind) (o : Option (List PushDevice))
      → Modest (counted o) n (with_devices answer writes generic now ev kind o n)
  unfolding with_devices
  with_devices_bound kind none = (omega arith, λ e. refl)
  with_devices_bound kind (some []) = (omega arith, λ e. refl)
  with_devices_bound kind (some (d ∷ ds)) = (notify_devices_bound kind (d ∷ ds), λ e. ground arith)

  with_trigger_bound :
      (o : Option TriggerKind)
      → Modest (counted (list n.file)) n (with_trigger answer writes generic now ev o n)
  unfolding with_trigger
  with_trigger_bound none = (omega arith, λ e. refl)
  with_trigger_bound (some kind) =
      if_keeps (Modest (counted (list n.file)) n) (ev.synthetic && is_done kind) _ _
        (omega arith, λ e. refl) (with_devices_bound kind (list n.file))

-- An event sends at most twice as often as there are devices, and with no device that can be read
-- it sends nothing and changes nothing.
handle_event_bound :
    (answer : List Sent → SendOutcome) (writes generic : Bool) (now : ℕ) (ev : AgentStatusChanged)
    (n : Notifier)
    → (length (handle_event answer writes generic now ev n).log
        ≤ length n.log + 2 * registered n.file)
      × (registered n.file ≡ 0 → handle_event answer writes generic now ev n ≡ n)
unfolding handle_event registered
handle_event_bound answer writes generic now ev n =
    with_trigger_bound answer writes generic now ev n (trigger_kind ev.status)
