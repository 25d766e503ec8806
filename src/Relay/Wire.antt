-- ===== src/Relay/Wire.antt =====
-- muxrd/src/relay/types.rs and muxrd/src/relay/inbound.rs: what a relay's inbound loop receives,
-- what it asks of the backend's sender, and the state it keeps.
use muxr_core.Base.{ℕ, String, Option, Bool, List, Map}
use muxr_core.Mux.Layout.{PaneRef}
use muxr_core.Mux.Context.{FullscreenHint}
use muxr_core.Routing.Names.{Bytes}
use muxr_core.Relay.Fullscreen.{FloatingHint, LiveRead, Refusal, RelayViewState}

-- Whether the RPC that waits for the reply is gone, before the target is resolved and after it.
pub record ToggleReply : Type 0 where
  pub closed_before : Bool
  pub closed_after : Bool

pub data RelayControl : Type 0 where
  switch_tab : ℕ → RelayControl
  focus_pane : PaneRef → RelayControl
  switch_space : String → RelayControl
  toggle_fullscreen : PaneRef → Option FloatingHint → Option ToggleReply → RelayControl
  query_layout : RelayControl

-- A mouse frame's kind is the raw wire value, an i32 modulo 2^32.
pub record MouseInput : Type 0 where
  pub kind : ℕ
  pub col : ℕ
  pub row : ℕ

pub data MouseKind : Type 0 where
  wheel_up : MouseKind
  wheel_down : MouseKind

pub data ClientFrame : Type 0 where
  input : Bytes → ClientFrame
  resize : ℕ → ℕ → ClientFrame
  mouse : MouseInput → ClientFrame
  attach : ClientFrame
  no_kind : ClientFrame

-- How the token's check on the blocking pool ends.
pub data TokenCheck : Type 0 where
  checked : Bool → TokenCheck
  db_error : TokenCheck
  check_panicked : TokenCheck

-- What the `select!` of the loop yields.
pub data Event : Type 0 where
  reader_tick : Bool → Event
  evicted : Event
  recheck : TokenCheck → Event
  command : Option RelayControl → Event
  frame : ClientFrame → Event
  stream_error : Event
  stream_end : Event

-- A call of the boxed sender.
pub data Call : Type 0 where
  go_to_tab : ℕ → Call
  focus : PaneRef → Call
  to_space : String → Call
  toggle : PaneRef → FullscreenHint → Call
  send_resize : ℕ → ℕ → Call
  send_input_chars : Bytes → Call
  send_input_bytes : Bytes → Call
  send_mouse : MouseKind → ℕ → ℕ → Call
  layout_actions : Call
  layout_result : Call

pub data Answer : Type 0 where
  done : Answer
  failed : Answer
  panicked : Answer

-- The replies to RPCs: a toggle's, with the refusal if there is one, a move to a space, and a
-- layout query that failed because the render thread is gone.
pub data Reply : Type 0 where
  toggled : Option Refusal → Reply
  moved : Bool → Reply
  no_render_thread : Reply

-- The backend at one turn of the loop.
pub record Backend : Type 0 where
  pub answer : Call → Answer
  pub live : PaneRef → Option PaneRef → LiveRead
  pub has_sync_layout : Bool
  pub render_alive : Bool

pub record ViewStateEntry : Type 0 where
  pub session : Bytes
  pub state : RelayViewState

-- `sender` is the address of the channel, and a session's id stands as its bytes.
pub record ControlEntry : Type 0 where
  pub session : Bytes
  pub sender : ℕ
  pub read_only : Bool

pub record Connection : Type 0 where
  pub connection_id : String
  pub read_only : Bool
  pub token : Option String

-- The loop's variables and the registries it shares. `sent` and `replies` hold the calls and the
-- replies made, the latest first, and `in_flight` the queries handed to the render thread.
pub record Loop : Type 0 where
  pub view_state : Map String ViewStateEntry
  pub control : Map String ControlEntry
  pub grid_rows : ℕ
  pub grid_cols : ℕ
  pub next_query_seq : ℕ
  pub sent : List Call
  pub replies : List Reply
  pub in_flight : List ℕ
  pub running : Bool
