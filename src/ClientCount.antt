-- ===== src/ClientCount.antt =====
-- muxrd/src/client_count.rs: how many clients are attached to each session. The counters are
-- shared between the map and the guards, so they stand in a store of their own, by address.
pub mod Guards
pub mod Counting
pub mod Total
use muxr_core.Base.{
  ℕ, suc, ◌+◌, ◌-◌, ◌%◌, ◌^◌, String, Option, none, some, Map, lookup, insert, nat_key, string_key,
  List, [], ◌∷◌,
}

abbrev pub usize_mod : ℕ
usize_mod = 2 ^ 64

abbrev pub u32_mod : ℕ
u32_mod = 2 ^ 32

-- `inner` maps a session to the address of its counter; `next` is an address not in use.
pub record SessionClients : Type 0 where
  pub inner : Map String ℕ
  pub cells : Map ℕ ℕ
  pub next : ℕ

abbrev pub new : SessionClients
new = record { inner = []; cells = []; next = 0 }

-- `AtomicUsize::load`; every address in use has a cell.
pub load : Map ℕ ℕ → ℕ → ℕ
load cells a = elim (lookup a cells) [ some n ↦ n | none ↦ 0 ]

-- `fetch_add(1)` and `fetch_sub(1)` wrap round.
pub fetch_add : Map ℕ ℕ → ℕ → Map ℕ ℕ
unfolding load
fetch_add cells a = insert a ((load cells a + 1) % usize_mod) cells

pub fetch_sub : Map ℕ ℕ → ℕ → Map ℕ ℕ
unfolding load
fetch_sub cells a = insert a ((load cells a + usize_mod - 1) % usize_mod) cells

-- `entry(session).or_insert_with(…)`: the session's counter, a new one if there is none.
pub counter_of : SessionClients → String → SessionClients × ℕ
counter_of c session = elim (lookup session c.inner) [
  | some a ↦ (c, a)
  | none ↦ (
    record {
      inner = insert session c.next c.inner;
      cells = insert c.next 0 c.cells;
      next = suc c.next;
    },
    c.next,
  )
]

-- The guard is the address of the counter.
unfoldable pub attach : SessionClients → String → SessionClients × ℕ
unfolding counter_of fetch_add
attach c session =
    let (c', a) = counter_of c session in (record c' { cells = fetch_add c'.cells a }, a)

-- `ClientGuard::drop`.
unfoldable pub drop_guard : SessionClients → ℕ → SessionClients
unfolding fetch_sub
drop_guard c a = record c { cells = fetch_sub c.cells a }

unfoldable pub count : SessionClients → String → ℕ
unfolding load
count c session = elim (lookup session c.inner) [ some a ↦ load c.cells a % u32_mod | none ↦ 0 ]

pub sum_loads : Map ℕ ℕ → Map String ℕ → ℕ
unfolding load
sum_loads cells [] = 0
sum_loads cells ((s, a) ∷ m) = load cells a + sum_loads cells m

unfoldable pub total_count : SessionClients → ℕ
unfolding sum_loads
total_count c = sum_loads c.cells c.inner
