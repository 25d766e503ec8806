-- ===== src/Tests/Feeds.antt =====
-- muxrd/src/grpc/agent_ops.rs and muxrd/src/multiplexer/types.rs: agents in order, and a stream of them.
use muxr_core.Base.{
  ℕ, ◌≡◌, refl, none, some, true, false, List, [], ◌∷◌, length, string_discrete, ℕ_discrete, lookup,
  insert, contains,
}
use muxr_core.Mux.Layout.{AgentStatus, idle, working, blocked}
use muxr_core.Mux.Events.{agent_status_changed, AgentStatusChanged}
use muxr_core.Mux.Agents.{AgentSnapshot, sort_agents}
use muxr_core.Agents.{received}
use muxr_core.Agents.Watch.{Turn, read_done, reread, bus, deliver_permit, watch_loop, start_watch}
use muxr_core.Agents.Faithful.{Mirrors, watch_loop-Mirrors}

abbrev agent : ℕ → AgentStatus → ℕ → AgentSnapshot
agent pane status seq = record {
  pane = pane;
  tab_id = 1;
  space_id = "w";
  space_name = "main";
  tab_name = "one";
  kind = "claude";
  name = none;
  display_kind = none;
  status = status;
  title = none;
  summary = none;
  cwd = none;
  focused = false;
  change_seq = seq;
  completion_seq = none;
}

abbrev agents : List AgentSnapshot
agents = agent 1 idle 4 ∷ agent 2 blocked 1 ∷ agent 3 idle 9 ∷ []

sort_agents-run : sort_agents agents ≡ agent 2 blocked 1 ∷ agent 3 idle 9 ∷ agent 1 idle 4 ∷ []
unfolding sort_agents
sort_agents-run = refl

abbrev status_event : AgentStatusChanged
status_event = record {
  pane = 1;
  workspace_id = "w";
  workspace_name = none;
  status = working;
  title = none;
  kind = some "claude";
  name = none;
  tab = some 1;
  synthetic = false;
}

abbrev turns : List Turn
turns =
    record { waits = []; choice = bus (received (agent_status_changed status_event)) }
    ∷ record { waits = (deliver_permit true ∷ []) ∷ []; choice = reread 400000000 }
    ∷ record { waits = []; choice = read_done (some (agent 1 working 5 ∷ agent 3 idle 9 ∷ [])) }
    ∷ []

stream-sent : length (watch_loop true 250000000 turns (start_watch agents 0)).0.sent ≡ 2
unfolding watch_loop start_watch string_discrete ℕ_discrete lookup insert contains
stream-sent = refl

stream-owed : length (watch_loop true 250000000 turns (start_watch agents 0)).0.watch.outbox ≡ 2
unfolding watch_loop start_watch string_discrete ℕ_discrete lookup insert contains
stream-owed = refl

watch_loop-Mirrors_example : Mirrors (watch_loop true 250000000 turns (start_watch agents 0)).0
unfolding contains ℕ_discrete
watch_loop-Mirrors_example =
    watch_loop-Mirrors true 250000000 agents 0 turns (tt, (tt, ((refl, (refl, tt)), tt)))
