-- ===== src/ClientCount/Guards.antt =====
-- The guards that the relays hold, and histories of attaching and of dropping a guard.
use muxr_core.Base.{
  get_elem?, remove_at, ℕ, zero, suc, ◌≤◌, String, ◌≡◌, refl, none, some, List, [], ◌∷◌, length,
  ite, string_discrete, arith,
}
use muxr_core.ClientCount.{SessionClients, new, attach, drop_guard}

-- A live guard, with the session that its relay serves.
pub record Guard : Type 0 where
  pub session : String
  pub counter : ℕ

pub record World : Type 0 where
  pub clients : SessionClients
  pub guards : List Guard

-- A relay starts on a session, or the relay that holds the n-th guard ends.
pub data Event : Type 0 where
  starts : String → Event
  ends : ℕ → Event

unfoldable pub start : World → String → World
start w s =
    let (c, a) = attach w.clients s in
    record { clients = c; guards = record { session = s; counter = a } ∷ w.guards }

unfoldable pub finish : World → ℕ → World
finish w n = elim (get_elem? w.guards n) [
  | none ↦ w
  | some g ↦ record { clients = drop_guard w.clients g.counter; guards = remove_at n w.guards }
]

unfoldable pub step : World → Event → World
unfolding start finish
step w (starts s) = start w s
step w (ends n) = finish w n

abbrev pub run : World → List Event → World
run w [] = w
run w (e ∷ es) = run (step w e) es

abbrev pub initial : World
initial = record { clients = new; guards = [] }

-- How many of the guards serve the session.
unfoldable pub live : String → List Guard → ℕ
live s [] = 0
live s (g ∷ gs) = ite (string_discrete s g.session) (suc (live s gs)) (live s gs)

pub live-le-length : (s : String) (gs : List Guard) → live s gs ≤ length gs
unfolding live
live-le-length s [] = omega arith
live-le-length s (g ∷ gs) = ground (arith, live-le-length s gs)

pub live-remove_at :
    (s : String) (n : ℕ) (gs : List Guard) (g : Guard)
    → get_elem? gs n ≡ some g
    → live s gs
      ≡ ite (string_discrete s g.session) (suc (live s (remove_at n gs))) (live s (remove_at n gs))
unfolding live get_elem? remove_at
live-remove_at s n [] g h = cc
live-remove_at s zero (x ∷ gs) g h = ground arith
live-remove_at s (suc n) (x ∷ gs) g h = ground (arith, live-remove_at s n gs g)

pub length-remove_at :
    (n : ℕ) (gs : List Guard) (g : Guard)
    → get_elem? gs n ≡ some g
    → length gs ≡ suc (length (remove_at n gs))
unfolding get_elem? remove_at
length-remove_at n [] g h = cc
length-remove_at zero (x ∷ gs) g h = refl
length-remove_at (suc n) (x ∷ gs) g h = ground (arith, length-remove_at n gs g)
