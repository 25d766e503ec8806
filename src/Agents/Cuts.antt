-- ===== src/Agents/Cuts.antt =====
-- The order of the rows that muxrd/src/grpc/agent_ops.rs sends, by their statuses.
use muxr_core.Base.{
  ℕ, zero, suc, ◌+◌, ◌<◌, ◌≤◌, ◌≡◌, refl, sym, ap, ◌∙◌, true, List, [], ◌∷◌, All, if_keeps, arith,
  string_key,
}
use mathlib.Core.List.{Perm}
use mathlib.Core.List.Perm
use muxr_core.Mux.Layout.{AgentStatus, idle, working, blocked, done, unknown}
use muxr_core.Mux.Agents.{AgentSnapshot, sort_agents, put_agent, sort_key, key_le, priority}
use muxr_core.Mux.Agents.Order.{Falling}
use muxr_core.Mux.Agents.Counts.{section, bit, count, count-put_agent}
use muxr_core.Agents.{AgentMsg}

unfoldable pub repeat : ℕ → AgentStatus → List AgentStatus → List AgentStatus
repeat zero st rest = rest
repeat (suc n) st rest = st ∷ repeat n st rest

-- So many blocked ones, then the done, the working, the idle and the unknown ones.
unfoldable pub sections : (AgentStatus → ℕ) → List AgentStatus
unfolding repeat
sections n = repeat (n blocked) blocked (
    repeat (n done) done
      (repeat (n working) working (repeat (n idle) idle (repeat (n unknown) unknown []))))

abbrev pub statuses : List AgentMsg → List AgentStatus
statuses [] = []
statuses (a ∷ rest) = a.status ∷ statuses rest

-- Of two rows with one status the one that changed later stands first.
abbrev pub Newest : List AgentMsg → Type 0
Newest [] = Unit
Newest (a ∷ rest) = All (λ b. b.status ≡ a.status → b.change_seq ≤ a.change_seq) rest × Newest rest

abbrev pub listed_statuses : List AgentSnapshot → List AgentStatus
listed_statuses [] = []
listed_statuses (a ∷ rest) = a.status ∷ listed_statuses rest

-- What stands in an earlier section has the larger priority.
pub section-priority : (st : AgentStatus) → section st + priority st ≡ 4
unfolding priority
section-priority blocked = refl
section-priority done = refl
section-priority working = refl
section-priority idle = refl
section-priority unknown = refl

pub none_above :
    (a : AgentSnapshot) (wanted : AgentStatus) (l : List AgentSnapshot)
    → section wanted < section a.status
    → All (λ b. key_le (sort_key b) (sort_key a) ≡ true) l
    → count wanted l ≡ 0
unfolding count bit key_le sort_key
none_above a wanted [] h w = refl
none_above a wanted (b ∷ l) h w =
    ground
      (arith, none_above a wanted l h w.1, section-priority a.status, section-priority b.status)

pub sections-cons :
    (st : AgentStatus) (n m : AgentStatus → ℕ)
    → ((wanted : AgentStatus) → m wanted ≡ bit wanted st + n wanted)
    → ((wanted : AgentStatus) → section wanted < section st → n wanted ≡ 0)
    → sections m ≡ st ∷ sections n
unfolding sections bit repeat
sections-cons blocked n m e z =
    let m0 : m blocked ≡ suc (n blocked) = omega (arith, e blocked) in
    let m1 : m done ≡ n done = omega (arith, e done) in
    let m2 : m working ≡ n working = omega (arith, e working) in
    let m3 : m idle ≡ n idle = omega (arith, e idle) in
    let m4 : m unknown ≡ n unknown = omega (arith, e unknown) in rw (m0, m1, m2, m3, m4) refl
sections-cons done n m e z =
    let m0 : m blocked ≡ 0 = omega (arith, e blocked, z blocked (omega arith)) in
    let m1 : m done ≡ suc (n done) = omega (arith, e done) in
    let m2 : m working ≡ n working = omega (arith, e working) in
    let m3 : m idle ≡ n idle = omega (arith, e idle) in
    let m4 : m unknown ≡ n unknown = omega (arith, e unknown) in
    let n0 : n blocked ≡ 0 = z blocked (omega arith) in rw (m0, m1, m2, m3, m4, n0) refl
sections-cons working n m e z =
    let m0 : m blocked ≡ 0 = omega (arith, e blocked, z blocked (omega arith)) in
    let m1 : m done ≡ 0 = omega (arith, e done, z done (omega arith)) in
    let m2 : m working ≡ suc (n working) = omega (arith, e working) in
    let m3 : m idle ≡ n idle = omega (arith, e idle) in
    let m4 : m unknown ≡ n unknown = omega (arith, e unknown) in
    let n0 : n blocked ≡ 0 = z blocked (omega arith) in
    let n1 : n done ≡ 0 = z done (omega arith) in rw (m0, m1, m2, m3, m4, n0, n1) refl
sections-cons idle n m e z =
    let m0 : m blocked ≡ 0 = omega (arith, e blocked, z blocked (omega arith)) in
    let m1 : m done ≡ 0 = omega (arith, e done, z done (omega arith)) in
    let m2 : m working ≡ 0 = omega (arith, e working, z working (omega arith)) in
    let m3 : m idle ≡ suc (n idle) = omega (arith, e idle) in
    let m4 : m unknown ≡ n unknown = omega (arith, e unknown) in
    let n0 : n blocked ≡ 0 = z blocked (omega arith) in
    let n1 : n done ≡ 0 = z done (omega arith) in
    let n2 : n working ≡ 0 = z working (omega arith) in rw (m0, m1, m2, m3, m4, n0, n1, n2) refl
sections-cons unknown n m e z =
    let m0 : m blocked ≡ 0 = omega (arith, e blocked, z blocked (omega arith)) in
    let m1 : m done ≡ 0 = omega (arith, e done, z done (omega arith)) in
    let m2 : m working ≡ 0 = omega (arith, e working, z working (omega arith)) in
    let m3 : m idle ≡ 0 = omega (arith, e idle, z idle (omega arith)) in
    let m4 : m unknown ≡ suc (n unknown) = omega (arith, e unknown) in
    let n0 : n blocked ≡ 0 = z blocked (omega arith) in
    let n1 : n done ≡ 0 = z done (omega arith) in
    let n2 : n working ≡ 0 = z working (omega arith) in
    let n3 : n idle ≡ 0 = z idle (omega arith) in rw (m0, m1, m2, m3, m4, n0, n1, n2, n3) refl

pub statuses-Falling :
    (l : List AgentSnapshot) → Falling l → listed_statuses l ≡ sections (λ wanted. count wanted l)
unfolding count sections repeat
statuses-Falling [] f = refl
statuses-Falling (a ∷ l) f =
    ap (λ (sts : List AgentStatus). a.status ∷ sts) (statuses-Falling l f.1)
    ∙ sym (
        sections-cons a.status (λ wanted. count wanted l) (λ wanted. count wanted (a ∷ l))
          (λ wanted. refl) (λ wanted h. none_above a wanted l h f.0))

pub count-sort_agents :
    (wanted : AgentStatus) (l : List AgentSnapshot) → count wanted (sort_agents l) ≡ count wanted l
unfolding sort_agents count
count-sort_agents wanted [] = refl
count-sort_agents wanted (a ∷ l) =
    count-put_agent wanted a (sort_agents l)
    ∙ ap (λ (n : ℕ). bit wanted a.status + n) (count-sort_agents wanted l)

pub put_agent-Perm : (a : AgentSnapshot) (bs : List AgentSnapshot) → Perm (put_agent a bs) (a ∷ bs)
unfolding put_agent
put_agent-Perm a [] = Perm.refl (a ∷ [])
put_agent-Perm a (b ∷ bs) =
    if_keeps (λ (l : List AgentSnapshot). Perm l (a ∷ b ∷ bs)) (key_le (sort_key b) (sort_key a))
      (a ∷ b ∷ bs) (b ∷ put_agent a bs) (Perm.refl (a ∷ b ∷ bs))
      (Perm.trans (Perm.cons b (put_agent-Perm a bs)) (Perm.swap a b bs))

pub sort_agents-Perm : (l : List AgentSnapshot) → Perm (sort_agents l) l
unfolding sort_agents
sort_agents-Perm [] = Perm.refl []
sort_agents-Perm (a ∷ l) =
    Perm.trans (put_agent-Perm a (sort_agents l)) (Perm.cons a (sort_agents-Perm l))
