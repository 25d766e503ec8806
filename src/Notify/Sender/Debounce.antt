-- ===== src/Notify/Sender/Debounce.antt =====
-- muxrd/src/notify/sender.rs: within the window one send for a pane and a kind.
use muxr_core.Base.{
  ◌≡◌, ◌∙◌, ℕ, ◌+◌, ◌<◌, ◌≤◌, some, true, false, List, [], ◌∷◌, All, lookup, retain, Distinct,
  lookup-insert, lookup-retain, insert-Distinct, retain-Distinct, filtered, arith, if◌then◌else◌,
  ite,
}
use muxr_core.Notify.Sender.{
  PaneKind, pane_kind_key, pane_kind_discrete, Debouncer, should_send, is_recent,
}

-- The debouncer over a sequence of decisions.
unfoldable pub decided : Debouncer → List (PaneKind × ℕ) → Debouncer
unfolding should_send
decided d [] = d
decided d ((k, now) ∷ cs) = decided (should_send d k now).0 cs

-- The last send for `k` was at `t`.
pub record Holds (k : PaneKind) (t w : ℕ) (d : Debouncer) : Type 0 where
  pub distinct : Distinct d.last_sent
  pub window : d.window ≡ w
  pub last : lookup k d.last_sent ≡ some t

-- An instant in the window that begins at `t`.
abbrev pub Within : ℕ → ℕ → ℕ → Type 0
Within t w now = (t ≤ now) × (now < t + w)

module _ (d : Debouncer) (j : PaneKind) (now : ℕ) (u : Distinct d.last_sent) where
  should_send-Distinct : Distinct (should_send d j now).0.last_sent
  unfolding should_send
  should_send-Distinct =
      let r = retain-Distinct (is_recent d.window now) d.last_sent u in
      ground (arith, r, insert-Distinct j now (retain (is_recent d.window now) d.last_sent) r)

  should_send_window : (should_send d j now).0.window ≡ d.window
  unfolding should_send
  should_send_window = ground arith

  lookup_after :
      (k : PaneKind)
      → lookup k (should_send d j now).0.last_sent ≡ (
          if (should_send d j now).1
          then ite
              (pane_kind_discrete k j)
              (some now)
              (filtered (is_recent d.window now) (lookup k d.last_sent))
          else filtered (is_recent d.window now) (lookup k d.last_sent))
  unfolding should_send
  lookup_after k = ground (
    arith,
    lookup-retain (is_recent d.window now) k d.last_sent u,
    lookup-insert j k now (retain (is_recent d.window now) d.last_sent),
  )

  refused_recent :
      (t : ℕ)
      → lookup j d.last_sent ≡ some t
      → is_recent d.window now t ≡ true
      → (should_send d j now).1 ≡ false
  unfolding should_send
  refused_recent t h r = ground (arith, lookup-retain (is_recent d.window now) j d.last_sent u)

step-Holds :
    (k : PaneKind) (t w : ℕ) (d : Debouncer) (j : PaneKind) (now : ℕ)
    → Holds k t w d
    → Within t w now
    → Holds k t w (should_send d j now).0
step-Holds k t w d j now v i = record {
  distinct = should_send-Distinct d j now v.distinct;
  window = should_send_window d j now v.distinct ∙ v.window;
  last = ground (
    arith,
    v.window,
    v.last,
    lookup_after d j now v.distinct k,
    refused_recent d j now v.distinct t,
  );
}

sent-Holds :
    (k : PaneKind) (t : ℕ) (d : Debouncer)
    → Distinct d.last_sent
    → (should_send d k t).1 ≡ true
    → Holds k t d.window (should_send d k t).0
sent-Holds k t d u h = record {
  distinct = should_send-Distinct d k t u;
  window = should_send_window d k t u;
  last = ground (arith, lookup_after d k t u k);
}

decided-Holds :
    (k : PaneKind) (t w : ℕ) (d : Debouncer) (cs : List (PaneKind × ℕ))
    → All (λ c. Within t w c.1) cs
    → Holds k t w d
    → Holds k t w (decided d cs)
unfolding decided
decided-Holds k t w d [] a v = v
decided-Holds k t w d ((j, now) ∷ cs) a v =
    decided-Holds k t w (should_send d j now).0 cs a.1 (step-Holds k t w d j now v a.0)

-- Once a send for a pane and a kind has passed, every later one for the same pane and kind is held
-- back while the window lasts, whatever else is decided in between, when the debouncer has one entry
-- per pane and kind.
pub should_send-decided :
    (d : Debouncer) (k : PaneKind) (t now : ℕ) (cs : List (PaneKind × ℕ))
    → Distinct d.last_sent
    → (should_send d k t).1 ≡ true
    → All (λ c. Within t d.window c.1) cs
    → Within t d.window now
    → (should_send (decided (should_send d k t).0 cs) k now).1 ≡ false
should_send-decided d k t now cs u h a i =
    let v = decided-Holds k t d.window (should_send d k t).0 cs a (sent-Holds k t d u h) in
    let e = decided (should_send d k t).0 cs in
    refused_recent e k now v.distinct t v.last (ground (arith, v.window))

-- A send passes again once the window is over, so that nothing is held back for ever, when the
-- debouncer has one entry per pane and kind.
pub should_send_after :
    (d : Debouncer) (k : PaneKind) (t now : ℕ)
    → Distinct d.last_sent
    → lookup k d.last_sent ≡ some t
    → t + d.window ≤ now
    → (should_send d k now).1 ≡ true
unfolding should_send
should_send_after d k t now u h w =
    ground (arith, lookup-retain (is_recent d.window now) k d.last_sent u)
