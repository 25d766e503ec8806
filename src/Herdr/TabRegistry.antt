-- ===== src/Herdr/TabRegistry.antt =====
-- muxrd/src/multiplexer/herdr/registry.rs, `HerdrTabRegistry`: the numbers of herdr's tab ids, as
-- for panes but over `u64` and with nothing beside the id. One call is one step under the lock.
pub mod Invariant
use muxr_core.Base.{
  ℕ, ◌+◌, ◌^◌, String, Option, none, some, if◌then◌else◌, ltb, Map, lookup, insert, nat_key,
  string_key, [],
}
use muxr_core.Herdr.PaneRegistry.{first_id}

abbrev pub u64_mod : ℕ
u64_mod = 2 ^ 64

-- `u64::checked_add(1)`.
abbrev pub checked_suc : ℕ → Option ℕ
checked_suc n = if ltb (n + 1) u64_mod then some (n + 1) else none

pub record TabInner : Type 0 where
  pub next_id : ℕ
  pub by_herdr : Map String ℕ
  pub by_id : Map ℕ String

abbrev pub new : TabInner
new = record { next_id = first_id; by_herdr = []; by_id = [] }

pub assign_fresh : TabInner → String → TabInner × ℕ
assign_fresh inner tab = (
  record {
    next_id = elim (checked_suc inner.next_id) [ some next ↦ next | none ↦ inner.next_id ];
    by_herdr = insert tab inner.next_id inner.by_herdr;
    by_id = insert inner.next_id tab inner.by_id;
  },
  inner.next_id,
)

unfoldable pub assign_or_get : TabInner → String → TabInner × ℕ
unfolding assign_fresh
assign_or_get inner tab = elim (lookup tab inner.by_herdr) [
  | some id ↦ (inner, id)
  | none ↦ assign_fresh inner tab
]

unfoldable pub herdr_tab_id : TabInner → ℕ → Option String
herdr_tab_id inner id = lookup id inner.by_id
