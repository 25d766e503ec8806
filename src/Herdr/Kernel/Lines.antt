-- ===== src/Herdr/Kernel/Lines.antt =====
-- The lines that herdr pushes, in muxrd/src/multiplexer/herdr/subscribe.rs. The JSON library is a
-- parameter: the values it parses to, and what a value gives.
use Prim.Native.Char.{char}
use muxr_core.Base.{
  ℕ, String, Option, none, some, Bool, true, false, if◌then◌else◌, ◌||◌, is_empty_str, non_empty,
  replace, string_discrete, ite,
}
use muxr_core.Mux.Layout.{AgentStatus, idle, working, blocked, done, unknown}
use muxr_core.Mux.Events.{AgentStatusChanged}
use muxr_core.Herdr.PaneRegistry.{PaneInner, id_for_herdr_pane, assign_or_get}

-- herdr's own status words.
pub data HerdrAgentStatus : Type 0 where
  herdr_idle : HerdrAgentStatus
  herdr_working : HerdrAgentStatus
  herdr_blocked : HerdrAgentStatus
  herdr_done : HerdrAgentStatus
  herdr_unknown : HerdrAgentStatus

unfoldable pub map_status : HerdrAgentStatus → AgentStatus
map_status herdr_idle = idle
map_status herdr_working = working
map_status herdr_blocked = blocked
map_status herdr_done = done
map_status herdr_unknown = unknown

-- serde_json: parsing, the member of an object, and the text or the status that a
-- value may be.
pub record Json : Type 1 where
  pub Value : Type 0
  pub from_str : String → Option Value
  pub get : Value → String → Option Value
  pub as_str : Value → Option String
  pub to_status : Value → Option HerdrAgentStatus

-- A classified line. What `layout_updated` carries are herdr's ids of a workspace and of a tab.
pub data Pushed : Type 0 where
  agent_status : AgentStatusChanged → Pushed
  pane_created : Option String → Pushed
  pane_gone : Option String → Option ℕ → Pushed
  layout_updated : String → String → Pushed
  ignored : Pushed

pub data PaneChange : Type 0 where
  created : Option String → PaneChange
  gone : Option String → PaneChange

-- `Option::or_else`.
abbrev pub or_else {ℓ} : {A : Type ℓ} → Option A → Option A → Option A
or_else none other = other
or_else (some a) other = some a

-- `Option::and_then`.
abbrev pub and_then {ℓ κ} : {A : Type ℓ} {B : Type κ} → Option A → (A → Option B) → Option B
and_then none f = none
and_then (some a) f = f a

-- The agent's label, or the one it displays, when not empty.
unfoldable pub agent_kind : Option String → Option String → Option String
agent_kind agent display_agent = or_else (non_empty agent) (non_empty display_agent)

abbrev pub same_str : String → String → Bool
same_str s t = ite (string_discrete s t) true false

-- A known pane is only looked up, so that its terminal id stays.
unfoldable pub translate_pane : PaneInner → String → Option String → PaneInner × ℕ
unfolding id_for_herdr_pane assign_or_get
translate_pane panes pane terminal = elim (id_for_herdr_pane panes pane) [
  | some id ↦ (panes, id)
  | none ↦ assign_or_get panes pane (elim terminal [ none ↦ "" | some t ↦ t ])
]

module _ (json : Json) where
  unfoldable pub member_str : json.Value → String → Option String
  member_str v key = and_then (json.get v key) json.as_str

  unfoldable pub envelope : json.Value → Option (String × Option json.Value)
  unfolding member_str replace
  envelope v =
      and_then (member_str v "event")
        (λ event. some (replace (char 46 tt) (char 95 tt) event, json.get v "data"))

  -- The event's name, with underscores, and its data.
  unfoldable pub pushed_envelope : String → Option (String × Option json.Value)
  unfolding envelope
  pushed_envelope l = if is_empty_str l then none else and_then (json.from_str l) envelope

  -- The id that a `pane.created` carries, nested or at the top.
  unfoldable pub pane_created_id : Option json.Value → Option String
  unfolding member_str
  pane_created_id payload = and_then payload (λ d.
      or_else (and_then (json.get d "pane") (λ p. member_str p "pane_id")) (member_str d "pane_id"))

  unfoldable pub pane_gone_id : Option json.Value → Option String
  unfolding member_str
  pane_gone_id payload = and_then payload (λ d.
      or_else (member_str d "pane_id") (and_then (json.get d "pane") (λ p. member_str p "pane_id")))

  unfoldable pub parse_pane_gone : Option json.Value → PaneInner → Pushed
  unfolding pane_gone_id id_for_herdr_pane
  parse_pane_gone payload panes = elim (pane_gone_id payload) [
    | none ↦ ignored
    | some pane ↦ pane_gone (some pane) (id_for_herdr_pane panes pane)
  ]

  unfoldable pub layout_ids : json.Value → Option (String × String)
  unfolding member_str
  layout_ids layout =
      and_then (member_str layout "workspace_id")
        (λ workspace. and_then (member_str layout "tab_id") (λ tab. some (workspace, tab)))

  unfoldable pub parse_layout_updated : Option json.Value → Pushed
  unfolding layout_ids
  parse_layout_updated payload =
      elim (and_then payload (λ d. and_then (json.get d "layout") layout_ids)) [
        | none ↦ ignored
        | some (workspace, tab) ↦ layout_updated workspace tab
      ]

  unfoldable pub status_fields : json.Value → Option (String × (String × AgentStatus))
  unfolding member_str map_status
  status_fields d = and_then (member_str d "pane_id") (λ pane.
      and_then (member_str d "workspace_id") (λ workspace.
        and_then (and_then (json.get d "agent_status") json.to_status)
          (λ status. some (pane, (workspace, map_status status)))))

  -- The event names neither the workspace nor the tab.
  unfoldable pub status_event : json.Value → ℕ → String → AgentStatus → AgentStatusChanged
  unfolding member_str agent_kind
  status_event d pane workspace status = record {
    pane = pane;
    workspace_id = workspace;
    workspace_name = none;
    status = status;
    title = member_str d "title";
    kind = agent_kind (member_str d "agent") (member_str d "display_agent");
    name = non_empty (member_str d "name");
    tab = none;
    synthetic = false;
  }

  unfoldable pub parse_status_data : json.Value → PaneInner → PaneInner × Pushed
  unfolding status_fields translate_pane status_event
  parse_status_data d panes = elim (status_fields d) [
    | none ↦ (panes, ignored)
    | some (pane, (workspace, status)) ↦
        let (panes', id) = translate_pane panes pane none in
        (panes', agent_status (status_event d id workspace status))
  ]

  unfoldable pub parse_agent_status : Option json.Value → PaneInner → PaneInner × Pushed
  unfolding parse_status_data
  parse_agent_status none panes = (panes, ignored)
  parse_agent_status (some d) panes = parse_status_data d panes

  unfoldable pub classify_event : String → Option json.Value → PaneInner → PaneInner × Pushed
  unfolding parse_agent_status pane_created_id parse_pane_gone parse_layout_updated string_discrete
  classify_event event payload panes =
      if same_str event "pane_agent_status_changed"
      then parse_agent_status payload panes
      else if same_str event "pane_created"
      then (panes, pane_created (pane_created_id payload))
      else if same_str event "pane_closed" || same_str event "pane_exited"
      then (panes, parse_pane_gone payload panes)
      else if same_str event "layout_updated"
      then (panes, parse_layout_updated payload)
      else (panes, ignored)

  -- The line's class, and the registry, in which an unknown pane of a status gets an id.
  unfoldable pub classify_pushed : String → PaneInner → PaneInner × Pushed
  unfolding pushed_envelope classify_event
  classify_pushed l panes = elim (pushed_envelope l) [
    | none ↦ (panes, ignored)
    | some (event, payload) ↦ classify_event event payload panes
  ]

  unfoldable pub change_of : String → Option json.Value → Option PaneChange
  unfolding pane_created_id pane_gone_id
  change_of event payload =
      if same_str event "pane_created"
      then some (created (pane_created_id payload))
      else if same_str event "pane_closed" || same_str event "pane_exited"
      then some (gone (pane_gone_id payload))
      else none

  unfoldable pub lifecycle_change : String → Option PaneChange
  unfolding pushed_envelope change_of
  lifecycle_change l = elim (pushed_envelope l) [
    | none ↦ none
    | some (event, payload) ↦ change_of event payload
  ]

  unfoldable pub is_subscription_ack : String → Bool
  unfolding member_str
  is_subscription_ack l =
      elim (and_then (json.from_str l)
        (λ v. and_then (json.get v "result") (λ r. member_str r "type"))) [
          | none ↦ false
          | some t ↦ same_str t "subscription_started"
        ]

  -- Whether the line carries an error.
  unfoldable pub subscribe_error : String → Option json.Value
  subscribe_error l = and_then (json.from_str l) (λ v. json.get v "error")
