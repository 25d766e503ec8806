-- ===== src/Herdr/Kernel/Connect.antt =====
-- How the kernel of muxrd/src/multiplexer/herdr/subscribe.rs brings its two connections up. What a
-- select yields is a list, as for the pump; `waiting` is the result where a list ends too early.
use muxr_core.Base.{
  ℕ, String, Option, none, some, Bool, true, false, List, [], ◌∷◌, ◌++◌, reverse, if◌then◌else◌,
  trim_end, is_some,
}
use muxr_core.Mux.Events.{MuxEvent}
use muxr_core.Herdr.LineReader.{Read, line, eof, failed}
use muxr_core.Herdr.Kernel.Lines.{Json, is_subscription_ack, subscribe_error}
use muxr_core.Herdr.Kernel.Bootstrap.{bootstrap_pane_set}
use muxr_core.Herdr.Kernel.Resync.{Control, Tables, collect_pane_ids, resync}
use muxr_core.Herdr.Kernel.Pump.{Conn, new_conn, mark_event}

pub data Bring : Type 0 where
  bring_waiting : Bring
  bring_shutdown : Bring
  bring_failed : Bring
  bring_lifecycle_lost : Bring
  ready : Conn → Bring

pub data AckTick : Type 0 where
  ack_stop : AckTick
  ack_timeout : AckTick
  ack_line : ℕ → Read → AckTick

-- What happens to an attempt: whether the socket connects, whether the request is written, and the
-- select's ticks.
pub record Opening : Type 0 where
  pub connects : Bool
  pub writes : Bool
  pub acks : List AckTick

pub data EnumTick : Type 0 where
  enum_stop : EnumTick
  enum_done : Control → EnumTick
  enum_panicked : EnumTick
  enum_line : ℕ → Read → EnumTick

-- The enumeration, with the lines that were buffered meanwhile and the lifecycle connection.
pub data Enumerated : Type 0 where
  enumerating : Enumerated
  enum_shutdown : Enumerated
  enum_failed : Enumerated
  enum_lost : Enumerated
  enumerated : List String → List String → Enumerated

-- One answer before the acknowledgement.
unfoldable pub ack_answer : ℕ → Bool → Bool → Bring → Bring
ack_answer now true rejected rest = ready (new_conn now)
ack_answer now false true rest = bring_failed
ack_answer now false false rest = rest

module _ (json : Json) where
  unfoldable pub await_ack : List AckTick → Bring
  unfolding ack_answer is_subscription_ack subscribe_error trim_end
  await_ack [] = bring_waiting
  await_ack (ack_stop ∷ ts) = bring_shutdown
  await_ack (ack_timeout ∷ ts) = bring_failed
  await_ack (ack_line now eof ∷ ts) = bring_failed
  await_ack (ack_line now failed ∷ ts) = bring_failed
  await_ack (ack_line now (line l) ∷ ts) =
      let rest = await_ack ts in
      let l' = trim_end l in
      ack_answer now (is_subscription_ack json l') (is_some (subscribe_error json l')) rest

  unfoldable pub open_subscription : Opening → Bring
  unfolding await_ack
  open_subscription o =
      let acked = await_ack o.acks in
      if o.connects then (if o.writes then acked else bring_failed) else bring_failed

unfoldable pub listed : List String → Option (List String) → Enumerated
listed buffered none = enum_failed
listed buffered (some ids) = enumerated ids buffered

-- The lines buffered so far come before those of the ticks.
unfoldable pub enumerate : List EnumTick → List String → Conn → Enumerated × Conn
unfolding listed collect_pane_ids
enumerate [] buffered c = (enumerating, c)
enumerate (enum_stop ∷ ts) buffered c = (enum_shutdown, c)
enumerate (enum_done control ∷ ts) buffered c = (listed buffered (collect_pane_ids control), c)
enumerate (enum_panicked ∷ ts) buffered c = (enum_failed, c)
enumerate (enum_line now eof ∷ ts) buffered c = (enum_lost, c)
enumerate (enum_line now failed ∷ ts) buffered c = (enum_lost, c)
enumerate (enum_line now (line l) ∷ ts) buffered c =
    enumerate ts (buffered ++ (l ∷ [])) (mark_event now c)

-- What `connect_status` may change. The bus has what was sent, the latest first.
pub record Building : Type 0 where
  pub tables : Tables
  pub bus : List MuxEvent
  pub lifecycle : Conn
  pub subscribed : List String

-- The set of panes is committed, and the tables are read anew.
unfoldable pub commit : Control → List String → Bring → Building → Building × Bring
unfolding resync
commit control ids (ready c) b =
    let (tables, events) = resync control b.tables in
    (record b { tables = tables; bus = reverse events ++ b.bus; subscribed = ids }, ready c)
commit control ids bring_waiting b = (b, bring_waiting)
commit control ids bring_shutdown b = (b, bring_shutdown)
commit control ids bring_failed b = (b, bring_failed)
commit control ids bring_lifecycle_lost b = (b, bring_lifecycle_lost)

module _ (json : Json) where
  unfoldable pub subscribe_panes : Opening → Control → Enumerated → Building → Building × Bring
  unfolding bootstrap_pane_set open_subscription commit
  subscribe_panes o control enumerating b = (b, bring_waiting)
  subscribe_panes o control enum_shutdown b = (b, bring_shutdown)
  subscribe_panes o control enum_failed b = (b, bring_failed)
  subscribe_panes o control enum_lost b = (b, bring_lifecycle_lost)
  subscribe_panes o control (enumerated ids buffered) b =
      commit control (bootstrap_pane_set json ids buffered) (open_subscription json o) b

  unfoldable pub connect_status : List EnumTick → Opening → Control → Building → Building × Bring
  unfolding enumerate subscribe_panes
  connect_status ticks o control b =
      let (result, c) = enumerate ticks [] b.lifecycle in
      subscribe_panes o control result (record b { lifecycle = c })
