-- ===== src/Mux/Agents.antt =====
-- muxrd/src/multiplexer/types.rs: the agents of a session, their order, and their summary.
pub mod Order
pub mod Counts
use muxr_core.Base.{
  ℕ, suc, ◌%◌, ◌^◌, String, Option, Bool, true, false, not, ◌&&◌, ◌||◌, List, [], ◌∷◌, ◌++◌, ltb,
  leb, ◌==◌, length, contains, string_key, if◌then◌else◌,
}
use muxr_core.Mux.Layout.{AgentStatus, idle, working, blocked, done, unknown}

pub record AgentSnapshot : Type 0 where
  pub pane : ℕ
  pub tab_id : ℕ
  pub space_id : String
  pub space_name : String
  pub tab_name : String
  pub kind : String
  pub name : Option String
  pub display_kind : Option String
  pub status : AgentStatus
  pub title : Option String
  pub summary : Option String
  pub cwd : Option String
  pub focused : Bool
  pub change_seq : ℕ
  pub completion_seq : Option ℕ

unfoldable pub priority : AgentStatus → ℕ
priority blocked = 4
priority done = 3
priority working = 2
priority idle = 1
priority unknown = 0

abbrev pub Key2 : Type 0
Key2 = ℕ × ℕ

unfoldable pub sort_key : AgentSnapshot → Key2
unfolding priority
sort_key a = (priority a.status, a.change_seq)

-- The order of pairs: the first parts decide, and the second parts where those are equal.
unfoldable pub key_le : Key2 → Key2 → Bool
key_le (p, n) (q, m) = ltb p q || (p == q && leb n m)

-- Before the first one whose key is not larger.
unfoldable pub put_agent : AgentSnapshot → List AgentSnapshot → List AgentSnapshot
unfolding sort_key key_le
put_agent a [] = a ∷ []
put_agent a (b ∷ bs) =
    let after = put_agent a bs in if key_le (sort_key b) (sort_key a) then a ∷ b ∷ bs else b ∷ after

-- The stable sort by falling key.
unfoldable pub sort_agents : List AgentSnapshot → List AgentSnapshot
unfolding put_agent
sort_agents [] = []
sort_agents (a ∷ rest) = put_agent a (sort_agents rest)

abbrev pub summary_kinds_cap : ℕ
summary_kinds_cap = 8

pub record AgentSummary : Type 0 where
  pub total : ℕ
  pub blocked_count : ℕ
  pub done_count : ℕ
  pub working_count : ℕ
  pub idle_count : ℕ
  pub unknown_count : ℕ
  pub kinds : List String

-- `+= 1` on a u32.
abbrev pub count_up : ℕ → ℕ
count_up n = suc n % 2 ^ 32

unfoldable pub count_status : AgentStatus → AgentSummary → AgentSummary
count_status blocked s = record s { blocked_count = count_up s.blocked_count }
count_status done s = record s { done_count = count_up s.done_count }
count_status working s = record s { working_count = count_up s.working_count }
count_status idle s = record s { idle_count = count_up s.idle_count }
count_status unknown s = record s { unknown_count = count_up s.unknown_count }

unfoldable pub add_kind : String → List String → List String
unfolding contains
add_kind kind kinds =
    if ltb (length kinds) summary_kinds_cap && not (contains kind kinds)
    then kinds ++ (kind ∷ [])
    else kinds

unfoldable pub summarise : List AgentSnapshot → AgentSummary → AgentSummary
unfolding count_status add_kind
summarise [] s = s
summarise (a ∷ rest) s =
    let counted = count_status a.status s in
    summarise rest (record counted { kinds = add_kind a.kind counted.kinds })

unfoldable pub summary_of : List AgentSnapshot → AgentSummary
unfolding summarise
summary_of agents = summarise agents (record {
  total = length agents % 2 ^ 32;
  blocked_count = 0;
  done_count = 0;
  working_count = 0;
  idle_count = 0;
  unknown_count = 0;
  kinds = [];
})
