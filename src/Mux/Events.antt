-- ===== src/Mux/Events.antt =====
-- muxrd/src/multiplexer/events.rs: what the daemon's internal bus carries.
use muxr_core.Base.{ℕ, String, Option, Bool}
use muxr_core.Mux.Layout.{AgentStatus}

pub record AgentStatusChanged : Type 0 where
  pub pane : ℕ
  pub workspace_id : String
  pub workspace_name : Option String
  pub status : AgentStatus
  pub title : Option String
  pub kind : Option String
  pub name : Option String
  pub tab : Option ℕ
  pub synthetic : Bool

pub data MuxEvent : Type 0 where
  agent_status_changed : AgentStatusChanged → MuxEvent
  layout_changed : String → ℕ → MuxEvent
  pane_closed : ℕ → MuxEvent
  resynced : MuxEvent
