-- ===== src/Mux/Layout.antt =====
-- muxrd/src/multiplexer/types.rs: panes, tabs, and the layout a backend reports.
use muxr_core.Base.{ℕ, String, Option, none, some, Bool, true, false, List, ite, ℕ_discrete}
use muxr_core.Base.{◌==◌, ◌&&◌}

pub record PaneRef : Type 0 where
  pub id : ℕ
  pub is_plugin : Bool

unfoldable pub same_bool : Bool → Bool → Bool
same_bool true b = b
same_bool false true = false
same_bool false false = true

-- `PaneRef`'s derived equality.
unfoldable pub pane_discrete : Discrete PaneRef
pane_discrete = hlevel ℕ_discrete

-- `Option<PaneRef> == Some(pane)`.
abbrev pub is_pane : Option PaneRef → PaneRef → Bool
is_pane none q = false
is_pane (some p) q = ite (pane_discrete p q) true false

pub data AgentStatus : Type 0 where
  idle : AgentStatus
  working : AgentStatus
  blocked : AgentStatus
  done : AgentStatus
  unknown : AgentStatus

pub record AgentMark : Type 0 where
  pub kind : String
  pub name : Option String
  pub status : AgentStatus

pub record PaneSnapshot : Type 0 where
  pub id : ℕ
  pub title : String
  pub is_focused : Bool
  pub is_floating : Bool
  pub exited : Bool
  pub command : String
  pub cwd : String
  pub x : ℕ
  pub y : ℕ
  pub rows : ℕ
  pub cols : ℕ
  pub is_plugin : Bool
  pub is_fullscreen : Bool
  pub agent : Option AgentMark

pub record TabSnapshot : Type 0 where
  pub tab_id : ℕ
  pub position : ℕ
  pub name : String
  pub active : Bool
  pub has_bell : Bool
  pub panes_to_hide : ℕ
  pub fullscreen_active : Bool
  pub floating_panes_visible : Bool
  pub panes : List PaneSnapshot

pub record LayoutSnapshot : Type 0 where
  pub tabs : List TabSnapshot

-- The test by which a pane of a snapshot is the one named.
unfoldable pub names : PaneRef → PaneSnapshot → Bool
unfolding same_bool
names wanted p = (p.id == wanted.id) && same_bool p.is_plugin wanted.is_plugin
