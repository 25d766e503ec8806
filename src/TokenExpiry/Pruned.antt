-- ===== src/TokenExpiry/Pruned.antt =====
-- What a change of the sidecar of muxrd/src/token_expiry.rs does to the deadlines in it.
use muxr_core.Base.{
  ℕ, ◌≡◌, refl, String, Option, none, some, true, false, not, ◌&&◌, ite, if◌then◌else◌, Distinct,
  lookup, filtered, lookup-insert, lookup-remove, lookup-retain, is_some, string_key,
  string_discrete, arith,
}
use muxr_core.TokenExpiry.{
  ℤ, pos, negsuc, is_after, is_due, File, Host, now_epoch, entries, load_pruned, store,
  due_or_false, set_expiry, is_expired, forget,
}

-- The deadlines of a file stand under distinct digests.
abbrev pub DistinctFile : File → Type 0
DistinctFile file = Distinct (entries file)

is_after-not : (exp : ℤ) (now : ℕ) → is_after exp now ≡ not (is_due exp now)
unfolding is_after is_due
is_after-not (pos exp) now = ground arith
is_after-not (negsuc exp) now = refl

due_or_false-filtered :
    (exp : Option ℤ) (now later : ℕ)
    → due_or_false (filtered (λ e. is_after e now) exp) later
      ≡ (not (due_or_false exp now) && due_or_false exp later)
unfolding due_or_false
due_or_false-filtered none now later = refl
due_or_false-filtered (some exp) now later = ground (arith, is_after-not exp now)

is_some-filtered :
    (exp : Option ℤ) (now : ℕ)
    → is_some (filtered (λ e. is_after e now) exp) ≡ (is_some exp && not (due_or_false exp now))
unfolding due_or_false
is_some-filtered none now = refl
is_some-filtered (some exp) now = ground (arith, is_after-not exp now)

module _ (token_hash : String → String) (host later : Host) (file : File)
    (distinct : DistinctFile file) where
  -- The deadlines that the pruning keeps.
  lookup-load_pruned :
      (k : String)
      → host.located ≡ true
      → lookup k (load_pruned host file)
        ≡ filtered (λ e. is_after e (now_epoch host)) (lookup k (entries file))
  unfolding load_pruned
  lookup-load_pruned k h =
      ground (arith, lookup-retain (λ e. is_after e (now_epoch host)) k (entries file) distinct)

  -- When a deadline is recorded, that of the token is the new one and any other token counts as
  -- expired later only if it was not expired at the recording and its deadline has passed since;
  -- when nothing can be written the deadlines stay as they were.
  pub is_expired-set_expiry :
      (plaintext other : String) (expires_at : ℤ)
      → is_expired token_hash later (set_expiry token_hash host file plaintext expires_at).0 other
        ≡ (if host.located && host.writes
            then ite
                (string_discrete (token_hash other) (token_hash plaintext))
                (later.located && is_due expires_at (now_epoch later))
                (not (is_expired token_hash host file other)
                  && is_expired token_hash later file other)
            else is_expired token_hash later file other)
  unfolding is_expired set_expiry store entries due_or_false
  is_expired-set_expiry plaintext other expires_at = ground (
    arith,
    lookup-insert (token_hash plaintext) (token_hash other) expires_at (load_pruned host file),
    lookup-load_pruned (token_hash other),
    due_or_false-filtered (lookup (token_hash other) (entries file)) (now_epoch host)
        (now_epoch later),
  )

  -- When a token with a deadline ahead is revoked and the sidecar can be replaced, it has no
  -- deadline afterwards and the others keep theirs unless they had passed; else all deadlines stay
  -- as they were.
  is_expired-forget :
      (plaintext other : String)
      → is_expired token_hash later (forget token_hash host file plaintext) other ≡ (
          if host.located
            && (host.writes
                && (is_some (lookup (token_hash plaintext) (entries file))
                    && not (is_expired token_hash host file plaintext)))
          then ite (string_discrete (token_hash other) (token_hash plaintext)) false (
              not (is_expired token_hash host file other) && is_expired token_hash later file other)
          else is_expired token_hash later file other)
  unfolding is_expired forget store entries
  is_expired-forget plaintext other = ground (
    arith,
    lookup-remove (token_hash plaintext) (token_hash other) (load_pruned host file),
    lookup-load_pruned (token_hash other),
    lookup-load_pruned (token_hash plaintext),
    is_some-filtered (lookup (token_hash plaintext) (entries file)) (now_epoch host),
    due_or_false-filtered (lookup (token_hash other) (entries file)) (now_epoch host)
        (now_epoch later),
  )
