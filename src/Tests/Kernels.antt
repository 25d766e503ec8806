-- ===== src/Tests/Kernels.antt =====
-- muxrd/src/multiplexer/herdr/subscribe.rs: the kernel at two panes and a few lines.
use muxr_core.Base.{
  ◌*◌, ◌≡◌, ◌≢◌, refl, Option, none, some, true, false, not, ◌&&◌, ◌||◌, String, List, [], ◌∷◌,
  contains, if◌then◌else◌, arith, string_discrete, ℕ_discrete, lookup, insert, string_key, nat_key,
  length,
}
use muxr_core.Routing.Names.{Bytes}
use muxr_core.Herdr.PaneRegistry
use muxr_core.Herdr.TabRegistry
use muxr_core.Herdr.PaneRegistry.Invariant.{new-Inv}
use muxr_core.Herdr.LineReader.{LineReader, chunk, line, eof, next_line, split_line}
use muxr_core.Herdr.LineReader.Chunks.{first_line, bytes_of, next_line-ReadsFirst, ReadsFirst}
use muxr_core.Herdr.Kernel.Lines.{gone, lifecycle_change, Json, same_str, herdr_blocked}
use muxr_core.Herdr.Kernel.Backoff.{default_tuning}
use muxr_core.Herdr.Kernel.Bootstrap.{created_in, gone_in}
use muxr_core.Herdr.Kernel.Resync.{Control, PaneInfo, Tables, ResyncPane, build_resync_events}
use muxr_core.Herdr.Kernel.Resync.Tracked.{tracked, listed}
use muxr_core.Herdr.Kernel.Resync.Settled.{build_resync_events-again}
use muxr_core.Herdr.Kernel.Resync.Tracked.{build_resync_events-tracked}
use muxr_core.Herdr.Kernel.Pump.{
  Session, Tick, on_lifecycle, on_status, on_probe, pump, new_conn, no_strikes,
}
use muxr_core.Herdr.Kernel.Pump.Covered.{told}
use muxr_core.Herdr.Kernel.Pump.Patience.{lost, pump-patient, streaming, probes}
use muxr_core.Herdr.Kernel.Connect.{
  Opening, ack_line, EnumTick, enum_line, enum_done, Building, enumerate, connect_status,
}
use muxr_core.Herdr.Kernel.Coverage.{connect_status-pump}
use muxr_core.Herdr.Kernel.Run.{Turn, panicked, run_tuned, initial, drain_over}
use muxr_core.Herdr.Kernel.Run.Good.{Ladders}
use muxr_core.Herdr.Kernel.Run.Sound.{run_tuned-Ladders}

data TestValue : Type 0 where
  text : String → TestValue
  change : String → String → TestValue
  payload : String → TestValue
  ack : TestValue
  started : TestValue

abbrev parse : String → Option TestValue
parse l =
    if same_str l "ack"
    then some ack
    else if same_str l "created p9"
    then some (change "pane_created" "p9")
    else if same_str l "exited p1"
    then some (change "pane.exited" "p1")
    else none

abbrev member : TestValue → String → Option TestValue
member (text s) key = none
member (change e p) key =
    if same_str key "event"
    then some (text e)
    else if same_str key "data"
    then some (payload p)
    else none
member (payload p) key = if same_str key "pane_id" then some (text p) else none
member ack key = if same_str key "result" then some started else none
member started key = if same_str key "type" then some (text "subscription_started") else none

abbrev text_value : TestValue → Option String
text_value (text s) = some s
text_value (change e p) = none
text_value (payload p) = none
text_value ack = none
text_value started = none

abbrev json : Json
json = record {
  Value = TestValue;
  from_str = parse;
  get = member;
  as_str = text_value;
  to_status = λ v. none;
}

abbrev pane : PaneInfo
pane = record {
  pane_id = "p1";
  terminal_id = "t1";
  tab_id = "w:t1";
  title = none;
  agent = some "claude";
  display_agent = none;
  focused = true;
  agent_status = herdr_blocked;
}

abbrev control : Control
control = record {
  list_workspaces = some (record { workspace_id = "w"; label = "main" } ∷ []);
  list_panes = λ ws. some (pane ∷ []);
}

abbrev tables : Tables
tables = record {
  panes = PaneRegistry.new;
  tabs = TabRegistry.new;
  last_status = [];
  pane_tabs = [];
}

abbrev ticks : List EnumTick
ticks = enum_line 5 (line "created p9") ∷ enum_done control ∷ []

abbrev opening : Opening
opening = record { connects = true; writes = true; acks = ack_line 7 (line "ack") ∷ [] }

abbrev building : Building
building = record { tables = tables; bus = []; lifecycle = new_conn 3; subscribed = [] }

abbrev session : Session
session = record {
  tables = tables;
  bus = [];
  lifecycle = new_conn 3;
  status = new_conn 7;
  subscribed = "p1" ∷ "p9" ∷ [];
  strikes = no_strikes;
}

abbrev pump_ticks : List Tick
pump_ticks = on_lifecycle 9 (line "created p9") ∷ on_lifecycle 11 (line "exited p1") ∷ []

connect_status-pump_example :
    contains {K = String} "p9" (pump json default_tuning pump_ticks session).0.subscribed
    ≡ told json "p9"
        ((contains {K = String} "p9" ("p1" ∷ []) || created_in json "p9" ("created p9" ∷ []))
          && not (gone_in json "p9" ("created p9" ∷ [])))
        pump_ticks
unfolding enumerate connect_status pump contains string_discrete ℕ_discrete lookup insert
connect_status-pump_example =
    connect_status-pump json ticks opening control building default_tuning ("p1" ∷ [])
      ("created p9" ∷ []) (new_conn 7) pump_ticks session "p9" refl refl refl refl

pump-kept :
    contains {K = String} "p1" (pump json default_tuning pump_ticks session).0.subscribed ≡ false
unfolding pump contains string_discrete
pump-kept = refl

classified : lifecycle_change json "exited p1" ≡ some (gone (some "p1"))
unfolding lifecycle_change string_discrete
classified = refl

abbrev listing : List ResyncPane
listing =
    record {
      herdr_pane_id = "p1";
      terminal_id = "t1";
      workspace_id = "w";
      workspace_label = "main";
      tab_id = "w:t1";
      title = none;
      agent = some "claude";
      display_agent = none;
      status = herdr_blocked;
    }
    ∷ []

listing-changed : length (build_resync_events listing tables).1.changed ≡ 1
unfolding build_resync_events lookup insert string_discrete ℕ_discrete contains
listing-changed = refl

build_resync_events-tracked_example :
    let (t', e) = build_resync_events listing tables in
    (tracked t' 1 ≡ listed t'.panes listing 1)
    × (contains 1 e.closed ≡ (tracked tables 1 && not (listed t'.panes listing 1)))
build_resync_events-tracked_example = build_resync_events-tracked listing tables 1

build_resync_events-again_example :
    let e = (build_resync_events listing (build_resync_events listing tables).0).1 in
    (e.closed ≡ []) × (e.changed ≡ [])
unfolding contains string_discrete
build_resync_events-again_example =
    build_resync_events-again listing tables new-Inv (omega arith) (refl, tt)

abbrev probed : List Tick
probed = on_probe 90000000000 control ∷ on_status 90000000001 (line "ack") ∷ []

pump-patient_example : lost (pump json default_tuning probed session).1 ≡ false
unfolding streaming probes
pump-patient_example =
    pump-patient json default_tuning probed session refl (omega arith) (omega arith)

abbrev turn : Turn
turn = record {
  stop_before = false;
  lifecycle_opening = opening;
  enumeration = ticks;
  status_opening = opening;
  resync_control = control;
  ticks = on_lifecycle 20 eof ∷ [];
  lost_at = 21;
  stop_in_sleep = false;
  grown_at = 0;
  drain_ticks = drain_over ∷ [];
  stop_in_storm = false;
}

run_tuned-waits :
    (run_tuned json default_tuning
      (turn ∷ turn ∷ [])
      (initial default_tuning tables)).0.lifecycle_backoff
    ≡ 4 * 1000000000
unfolding run_tuned lookup insert string_discrete ℕ_discrete contains
run_tuned-waits = refl

run_tuned-Ladders_example :
    let (s, f) = run_tuned json default_tuning (turn ∷ turn ∷ []) (initial default_tuning tables) in
    Ladders default_tuning s × (f ≢ panicked)
run_tuned-Ladders_example =
    run_tuned-Ladders json default_tuning tables (turn ∷ turn ∷ []) (omega arith)

abbrev ascii : Bytes → Option String
ascii bs = some "read"

abbrev reader : LineReader
reader = record {
  inner = chunk (98 ∷ []) ∷ chunk (10 ∷ 99 ∷ []) ∷ [];
  pending = 97 ∷ [];
  max_line = 4;
}

next_line-ReadsFirst_example : ReadsFirst ascii (97 ∷ 98 ∷ 10 ∷ 99 ∷ []) (next_line ascii reader)
unfolding bytes_of split_line first_line
next_line-ReadsFirst_example = next_line-ReadsFirst ascii reader tt refl (omega arith)
