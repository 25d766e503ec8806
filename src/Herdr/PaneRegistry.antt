-- ===== src/Herdr/PaneRegistry.antt =====
-- muxrd/src/multiplexer/herdr/registry.rs, `HerdrPaneRegistry`: the stable numbers that the
-- daemon gives to herdr's opaque pane ids. Each method runs under the registry's one lock, so a
-- call is one step on the record that the lock guards; `u32` values are numbers below `u32_mod`.
pub mod Invariant
pub mod History
pub mod Resolve
use muxr_core.Base.{
  ℕ, ◌+◌, ◌^◌, String, Option, none, some, Bool, true, not, ◌&&◌, ite, if◌then◌else◌, ltb, Map,
  lookup, insert, nat_key, string_key, string_discrete, [], is_empty_str,
}
use mathlib.Core.Option

abbrev pub u32_mod : ℕ
u32_mod = 2 ^ 32

-- `u32::checked_add(1)`.
abbrev pub checked_suc : ℕ → Option ℕ
checked_suc n = if ltb (n + 1) u32_mod then some (n + 1) else none

abbrev pub first_id : ℕ
first_id = 1

pub record PaneEntry : Type 0 where
  pub herdr_pane_id : String
  pub terminal_id : String

pub record PaneInner : Type 0 where
  pub next_id : ℕ
  pub by_herdr : Map String ℕ
  pub by_id : Map ℕ PaneEntry

abbrev pub new : PaneInner
new = record { next_id = first_id; by_herdr = []; by_id = [] }

-- The write through `get_mut`, for an id that is already assigned.
pub refresh_entry : ℕ → String → Map ℕ PaneEntry → Map ℕ PaneEntry
refresh_entry id terminal by_id = elim (lookup id by_id) [
  | none ↦ by_id
  | some entry ↦
      ite (string_discrete entry.terminal_id terminal) by_id
        (insert id (record entry { terminal_id = terminal }) by_id)
]

-- The part behind the early return: an id for a pane that is seen for the first time.
pub assign_fresh : PaneInner → String → String → PaneInner × ℕ
assign_fresh inner pane terminal = (
  record {
    next_id = elim (checked_suc inner.next_id) [ some next ↦ next | none ↦ inner.next_id ];
    by_herdr = insert pane inner.next_id inner.by_herdr;
    by_id =
        insert inner.next_id (record { herdr_pane_id = pane; terminal_id = terminal }) inner.by_id;
  },
  inner.next_id,
)

pub assign_or_get_inner : PaneInner → String → String → Bool → PaneInner × ℕ
unfolding refresh_entry assign_fresh
assign_or_get_inner inner pane terminal refresh = elim (lookup pane inner.by_herdr) [
  | some id ↦ (
    record inner { by_id = if refresh then refresh_entry id terminal inner.by_id else inner.by_id },
    id,
  )
  | none ↦ assign_fresh inner pane terminal
]

unfoldable pub assign_or_get : PaneInner → String → String → PaneInner × ℕ
unfolding assign_or_get_inner
assign_or_get inner pane terminal = assign_or_get_inner inner pane terminal true

unfoldable pub assign_or_get_keep_terminal : PaneInner → String → String → PaneInner × ℕ
unfolding assign_or_get_inner
assign_or_get_keep_terminal inner pane terminal =
    assign_or_get_inner inner pane terminal (not (is_empty_str terminal))

unfoldable pub id_for_herdr_pane : PaneInner → String → Option ℕ
id_for_herdr_pane inner pane = lookup pane inner.by_herdr

unfoldable pub herdr_pane_id : PaneInner → ℕ → Option String
herdr_pane_id inner id = Option.map (λ e. e.herdr_pane_id) (lookup id inner.by_id)

unfoldable pub terminal_id : PaneInner → ℕ → Option String
terminal_id inner id = Option.map (λ e. e.terminal_id) (lookup id inner.by_id)
