-- ===== src/Service/Cap.antt =====
-- muxr-notify/src/handlers.rs: the daily cap of a handle.
use muxr_core.Base.{
  ◌≡◌, refl, ◌∙◌, ap, ℕ, suc, ◌+◌, ◌≤◌, ◌<◌, ◌^◌, String, string_key, Option, none, some, Bool,
  true, false, List, [], ◌∷◌, All, lookup, insert, lookup-insert, arith, Option-cases, inl, inr,
  if◌then◌else◌,
}
use muxr_core.Service.{
  Registration, Store, day_of, is_day, register_row, record_send, mark_pruned, SendOutcome,
  delivered, unregistered, upstream_error, send_failed, StatusCode, no_content, NotifyRequest,
  after_send, at_cap, notify_found, notify,
}

abbrev pub count_of : ℕ → Option Registration → ℕ
count_of day none = 0
count_of day (some r) = if is_day day r.day_bucket then r.sends_today else 0

-- What the table has for a handle on a day.
unfoldable pub sends : Store → String → ℕ → ℕ
sends s handle day = count_of day (lookup handle s)

abbrev pub is_sent : StatusCode → Bool
is_sent c = elim c [ no_content ↦ true | _ ↦ false ]

abbrev pub counted_send : ℕ → ℕ → Registration → Registration
counted_send day now r = record r {
  sends_today = if is_day day r.day_bucket then suc r.sends_today else 1;
  day_bucket = some day;
  last_send = some now;
}

module _ (s : Store) (h : String) (day now : ℕ) (r : Registration) (e : lookup h s ≡ some r) where
  lookup-record_send : lookup h (record_send s h day now) ≡ some (counted_send day now r)
  unfolding record_send
  lookup-record_send =
      rw (record_send, e) (ground (arith, lookup-insert h h (counted_send day now r) s))

  lookup-mark_pruned : lookup h (mark_pruned s h) ≡ some (record r { pruned = true })
  unfolding mark_pruned
  lookup-mark_pruned =
      rw (mark_pruned, e) (ground (arith, lookup-insert h h (record r { pruned = true }) s))

  sends-record_send : sends (record_send s h day now) h day ≡ suc (sends s h day)
  unfolding sends
  sends-record_send = ground (arith, e, lookup-record_send)

  sends-mark_pruned : sends (mark_pruned s h) h day ≡ sends s h day
  unfolding sends
  sends-mark_pruned = ground (arith, e, lookup-mark_pruned)

-- The request is for the handle and the day, and the database can be written.
abbrev pub For : String → ℕ → NotifyRequest → Type 0
For h day q = (q.push_handle ≡ h) × (day_of q.now ≡ day) × (q.writable ≡ true)

-- One more send is counted, below the cap, or none was made.
abbrev pub Counted : ℕ → String → ℕ → Store → Store × StatusCode → Type 0
Counted cap h day s (s', c) =
    sends s' h day ≡ (if is_sent c then suc (sends s h day) else sends s h day)

after_send-Counted :
    (cap : ℕ) (q : NotifyRequest) (s : Store) (r : Registration) (o : SendOutcome)
    → q.writable ≡ true
    → lookup q.push_handle s ≡ some r
    → Counted cap q.push_handle (day_of q.now) s (after_send q s o)
unfolding after_send
after_send-Counted cap q s r delivered w e =
    ground (arith, w, sends-record_send s q.push_handle (day_of q.now) q.now r e)
after_send-Counted cap q s r unregistered w e =
    ground (arith, w, sends-mark_pruned s q.push_handle (day_of q.now) q.now r e)
after_send-Counted cap q s r upstream_error w e = refl
after_send-Counted cap q s r send_failed w e = refl

notify-Counted :
    (cap : ℕ) (q : NotifyRequest) (s : Store)
    → q.writable ≡ true
    → Counted cap q.push_handle (day_of q.now) s (notify cap q s)
unfolding notify notify_found
notify-Counted cap q s w = elim (Option-cases (lookup q.push_handle s)) [
  | inl e ↦ ground arith
  | inr (r, e) ↦ ground (arith, after_send-Counted cap q s r q.outcome w e)
]

-- A notification is sent only below the cap.
sent_below :
    (cap : ℕ) (q : NotifyRequest) (s : Store)
    → 0 < cap
    → sends s q.push_handle (day_of q.now) < 2 ^ 32
    → is_sent (notify cap q s).1 ≡ true
    → sends s q.push_handle (day_of q.now) < cap
unfolding notify notify_found at_cap sends
sent_below cap q s p b h = ground arith

-- The table after a sequence of requests, and how many were sent.
unfoldable pub run : ℕ → List NotifyRequest → Store → Store × ℕ
unfolding notify
run cap [] s = (s, 0)
run cap (q ∷ qs) s =
    let (s', c) = notify cap q s in
    let (t, n) = run cap qs s' in (t, if is_sent c then suc n else n)

step_below :
    (cap : ℕ) (h : String) (day : ℕ) (q : NotifyRequest) (s : Store)
    → 0 < cap
    → cap < 2 ^ 32
    → For h day q
    → sends s h day ≤ cap
    → (sends (notify cap q s).0 h day ≤ cap)
      × (sends (notify cap q s).0 h day
          ≡ (if is_sent (notify cap q s).1 then suc (sends s h day) else sends s h day))
step_below cap h day q s p b f l =
    ground (arith, notify-Counted cap q s f.2, sent_below cap q s p, f.0, f.1)

-- Of the requests for one handle on one day, made one after the other with a database that can be
-- written, no more are sent than the cap leaves over what the day has already, when the cap is
-- positive and below 2^32 and the day has at most the cap.
pub run_capped :
    (cap : ℕ) (h : String) (day : ℕ) (qs : List NotifyRequest) (s : Store)
    → 0 < cap
    → cap < 2 ^ 32
    → All (For h day) qs
    → sends s h day ≤ cap
    → (run cap qs s).1 + sends s h day ≤ cap
unfolding run
run_capped cap h day [] s p b a l = omega (arith, l)
run_capped cap h day (q ∷ qs) s p b a l =
    let v = step_below cap h day q s p b a.0 l in
    ground (arith, v.0, v.1, run_capped cap h day qs (notify cap q s).0 p b a.1 v.0)

register_form :
    (s : Store) (platform token handle new_handle : String) (now : ℕ) (r : Registration)
    → lookup handle s ≡ some r
    → register_row s platform token (some handle) new_handle now ≡ (
      insert handle (record r { fcm_token = token; platform = platform; pruned = false }) s,
      some handle,
    )
unfolding register_row
register_form s platform token handle new_handle now r e = rw (register_row, e) refl

-- Registering again with a handle that is known gives the handle back, clears its pruned mark, and
-- resets no count of the day.
pub register_row_again :
    (s : Store) (platform token handle new_handle : String) (now : ℕ) (r : Registration)
    → lookup handle s ≡ some r
    → let (s', given) = register_row s platform token (some handle) new_handle now in
      (given ≡ some handle)
      × (lookup handle s'
          ≡ some (record r { fcm_token = token; platform = platform; pruned = false }))
      × ((h : String) (day : ℕ) → sends s' h day ≡ sends s h day)
unfolding sends
register_row_again s platform token handle new_handle now r e =
    let v : Registration = record r { fcm_token = token; platform = platform; pruned = false } in
    let f = register_form s platform token handle new_handle now r e in
    (
      ap (λ x. x.1) f,
      ap (λ x. lookup handle x.0) f ∙ ground (arith, lookup-insert handle handle v s),
      λ h day.
          ap (λ x. count_of day (lookup h x.0)) f ∙ ground (arith, e, lookup-insert handle h v s),
    )
