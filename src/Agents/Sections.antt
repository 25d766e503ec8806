-- ===== src/Agents/Sections.antt =====
-- How the list that muxrd/src/grpc/agent_ops.rs sends is laid out.
use muxr_core.Base.{
  ◌==◌, ◌&&◌, if◌then◌else◌, ℕ, ◌<◌, ◌≤◌, ◌≡◌, true, List, [], ◌∷◌, map, length, All, NoRepeat,
  contains, string_key,
}
use mathlib.Core.List.{Perm}
use mathlib.Core.List.Perm
use muxr_core.Mux.Layout.{AgentStatus}
use muxr_core.Mux.Agents.{AgentSnapshot, summary_kinds_cap}
use muxr_core.Mux.Agents.Counts.{section, counter}
use muxr_core.Agents.{AgentMsg, AgentList, agent_msg}
use muxr_core.Agents.Cuts.{sections, statuses, Newest}

-- The rows of one status and one number of the last change, in their order.
unfoldable pub picked : AgentStatus → ℕ → List AgentMsg → List AgentMsg
picked st n [] = []
picked st n (a ∷ rest) =
    let after = picked st n rest in
    if section a.status == section st && a.change_seq == n then a ∷ after else after

-- The list that is made of the agents.
pub record LaidOut (l : List AgentSnapshot) (list : AgentList) : Type 0 where
  pub same : Perm list.agents (map agent_msg l)
  pub cut : statuses list.agents ≡ sections (λ st. counter st list.summary)
  pub newest : Newest list.agents
  pub stable : (st : AgentStatus) (n : ℕ) → picked st n list.agents ≡ picked st n (map agent_msg l)
  pub total : list.summary.total ≡ length l
  pub distinct : NoRepeat list.summary.kinds
  pub few : length list.summary.kinds ≤ summary_kinds_cap
  pub listed :
      length list.summary.kinds < summary_kinds_cap
      → All (λ a. contains a.kind list.summary.kinds ≡ true) list.agents
