-- ===== src/Notify/Sender.antt =====
-- muxrd/src/notify/sender.rs: the outbound notifier. An instant is a natural number of nanoseconds.
-- The transport answers each send by what was sent before it. A body is a constructor with the label
-- that its text names.
pub mod Debounce
pub mod Fanout
use muxr_core.Base.{
  ◌≡◌, refl, ℕ, ◌-◌, Option, none, some, Bool, true, false, not, ◌&&◌, List, [], ◌∷◌, Map, Key,
  lookup, insert, retain, ltb, if◌then◌else◌, ite, ℕ_discrete, String, is_empty_str,
}
use muxr_core.Mux.Layout.{AgentStatus, idle, working, blocked, done, unknown}
use muxr_core.Routing.Names.{Bytes}
use muxr_core.Mux.Events.{AgentStatusChanged}
use muxr_core.Notify.Devices.{PushDevice, File, list, same_text, remove_by_handle}

abbrev pub debounce_window : ℕ
debounce_window = 30000000000

pub data TriggerKind : Type 0 where
  blocked_trigger : TriggerKind
  done_trigger : TriggerKind

unfoldable pub trigger_kind : AgentStatus → Option TriggerKind
trigger_kind blocked = some blocked_trigger
trigger_kind done = some done_trigger
trigger_kind idle = none
trigger_kind working = none
trigger_kind unknown = none

unfoldable pub is_done : TriggerKind → Bool
is_done blocked_trigger = false
is_done done_trigger = true

pub data SendOutcome : Type 0 where
  delivered : SendOutcome
  gone : SendOutcome
  rate_limited : SendOutcome
  transient : SendOutcome

-- The answer of the relay to a POST: the HTTP status, or none when the request failed.
unfoldable pub outcome_of : Option ℕ → SendOutcome
outcome_of none = transient
outcome_of (some status) = ite (ℕ_discrete status 204) delivered (
    ite (ℕ_discrete status 404) gone
      (ite (ℕ_discrete status 410) gone (ite (ℕ_discrete status 429) rate_limited transient)))

pub data Body : Type 0 where
  attention_needed : Body
  blocked_in : String → Body
  finished_in : String → Body

pub record NotifyContent : Type 0 where
  pub kind : TriggerKind
  pub body : Body

-- The workspace's name, or its id when the name is absent or empty.
unfoldable pub label_of : AgentStatusChanged → String
label_of ev = elim ev.workspace_name [
  | none ↦ ev.workspace_id
  | some name ↦ if is_empty_str name then ev.workspace_id else name
]

unfoldable pub body_for : TriggerKind → String → Body
body_for blocked_trigger label = blocked_in label
body_for done_trigger label = finished_in label

-- `generic` is the test that the verbosity is "generic".
unfoldable pub content_for : TriggerKind → AgentStatusChanged → Bool → NotifyContent
unfolding label_of body_for
content_for kind ev generic = record {
  kind = kind;
  body = if generic then attention_needed else body_for kind (label_of ev);
}

pub record PaneKind : Type 0 where
  pub pane : ℕ
  pub kind : TriggerKind

unfoldable pub trigger_discrete : Discrete TriggerKind
trigger_discrete blocked_trigger blocked_trigger = yes refl
trigger_discrete done_trigger done_trigger = yes refl
trigger_discrete blocked_trigger done_trigger = no (λ e. cc)
trigger_discrete done_trigger blocked_trigger = no (λ e. cc)

unfoldable pub pane_kind_discrete : Discrete PaneKind
pane_kind_discrete = hlevel (ℕ_discrete, trigger_discrete)

instance abbrev pub pane_kind_key : Key PaneKind
pane_kind_key = record { same = pane_kind_discrete }

pub record Debouncer : Type 0 where
  pub last_sent : Map PaneKind ℕ
  pub window : ℕ

-- `now.duration_since(t) < self.window`, where the duration is 0 when `t` is later.
abbrev pub is_recent : ℕ → ℕ → ℕ → Bool
is_recent window now t = ltb (now - t) window

unfoldable pub should_send : Debouncer → PaneKind → ℕ → Debouncer × Bool
should_send d k now =
    let pruned = retain (is_recent d.window now) d.last_sent in
    let fresh = record d { last_sent = insert k now pruned } in
    elim (lookup k pruned) [
      | none ↦ (fresh, true)
      | some t ↦
          if is_recent d.window now t
          then (record d { last_sent = pruned }, false)
          else (fresh, true)
    ]

abbrev pub Sent : Type 0
Sent = Bytes × NotifyContent

-- What the notifier keeps, the file of devices, and what was sent, the latest first.
pub record Notifier : Type 0 where
  pub debouncer : Debouncer
  pub file : File
  pub log : List Sent

-- The outcome and what was sent after it.
unfoldable pub send_with_retry :
    (List Sent → SendOutcome) → Sent → List Sent → SendOutcome × List Sent
send_with_retry answer s log = elim (answer (s ∷ log)) [
  | transient ↦ (answer (s ∷ s ∷ log), s ∷ s ∷ log)
  | delivered ↦ (delivered, s ∷ log)
  | gone ↦ (gone, s ∷ log)
  | rate_limited ↦ (rate_limited, s ∷ log)
]

-- A device that the relay reports gone is removed, when the file can be written.
unfoldable pub after_send : Bool → Bytes → SendOutcome → File → File
unfolding remove_by_handle
after_send writes handle gone file = (remove_by_handle writes file handle).0
after_send writes handle delivered file = file
after_send writes handle rate_limited file = file
after_send writes handle transient file = file

unfoldable pub fan_out :
    (List Sent → SendOutcome)
    → Bool
    → NotifyContent
    → List PushDevice
    → File × List Sent
    → File × List Sent
unfolding send_with_retry after_send
fan_out answer writes content [] (file, log) = (file, log)
fan_out answer writes content (d ∷ ds) (file, log) =
    let (outcome, log') = send_with_retry answer (d.push_handle, content) log in
    fan_out answer writes content ds (after_send writes d.push_handle outcome file, log')

-- The debouncer's verdict, and the fan-out when it lets the event pass.
unfoldable pub notify_devices :
    (List Sent → SendOutcome)
    → Bool
    → Bool
    → ℕ
    → AgentStatusChanged
    → TriggerKind
    → List PushDevice
    → Notifier
    → Notifier
unfolding should_send content_for fan_out
notify_devices answer writes generic now ev kind ds n =
    let (d, passed) = should_send n.debouncer (record { pane = ev.pane; kind = kind }) now in
    let (file, log) = fan_out answer writes (content_for kind ev generic) ds (n.file, n.log) in
    if passed then record { debouncer = d; file = file; log = log } else record n { debouncer = d }

-- With what the file gives.
unfoldable pub with_devices :
    (List Sent → SendOutcome)
    → Bool
    → Bool
    → ℕ
    → AgentStatusChanged
    → TriggerKind
    → Option (List PushDevice)
    → Notifier
    → Notifier
unfolding notify_devices
with_devices answer writes generic now ev kind none n = n
with_devices answer writes generic now ev kind (some []) n = n
with_devices answer writes generic now ev kind (some (d ∷ ds)) n =
    notify_devices answer writes generic now ev kind (d ∷ ds) n

-- With what the status triggers.
unfoldable pub with_trigger :
    (List Sent → SendOutcome)
    → Bool
    → Bool
    → ℕ
    → AgentStatusChanged
    → Option TriggerKind
    → Notifier
    → Notifier
unfolding is_done list with_devices
with_trigger answer writes generic now ev none n = n
with_trigger answer writes generic now ev (some kind) n =
    if ev.synthetic && is_done kind
    then n
    else with_devices answer writes generic now ev kind (list n.file) n

unfoldable pub handle_event :
    (List Sent → SendOutcome) → Bool → Bool → ℕ → AgentStatusChanged → Notifier → Notifier
unfolding trigger_kind with_trigger
handle_event answer writes generic now ev n =
    with_trigger answer writes generic now ev (trigger_kind ev.status) n
