-- ===== src/TokenExpiry.antt =====
-- muxrd/src/token_expiry.rs: the sidecar that gives pairing tokens a deadline. The encoding of the
-- file and the digest of a token are the libraries'; a call is one step here.
pub mod Pruned
use muxr_core.Base.{
  ℕ, String, Option, none, some, Bool, true, false, not, ◌&&◌, List, [], leb, ltb, if◌then◌else◌,
  Map, lookup, insert, remove, retain, is_some, string_key,
}

-- An i64 of seconds.
pub data ℤ : Type 0 where
  pos : ℕ → ℤ
  negsuc : ℕ → ℤ

unfoldable pub is_after : ℤ → ℕ → Bool
is_after (pos exp) now = ltb now exp
is_after (negsuc exp) now = false

unfoldable pub is_due : ℤ → ℕ → Bool
is_due (pos exp) now = leb exp now
is_due (negsuc exp) now = true

pub data File : Type 0 where
  missing : File
  unreadable : File
  garbled : File
  holds : Map String ℤ → File

-- What a call finds: whether the data directory is known and the sidecar can be replaced, and the
-- seconds since the epoch, none when the clock stands before it.
pub record Host : Type 0 where
  pub located : Bool
  pub writes : Bool
  pub clock : Option ℕ

unfoldable pub now_epoch : Host → ℕ
now_epoch host = elim host.clock [ none ↦ 0 | some seconds ↦ seconds ]

unfoldable pub entries : File → Map String ℤ
entries missing = []
entries unreadable = []
entries garbled = []
entries (holds m) = m

unfoldable pub load_pruned : Host → File → Map String ℤ
unfolding entries is_after now_epoch
load_pruned host file =
    if host.located then retain (λ exp. is_after exp (now_epoch host)) (entries file) else []

-- The temporary file is renamed last, so that a failure leaves the sidecar as it was.
unfoldable pub store : Host → File → Map String ℤ → File × Bool
store host file m = if host.located && host.writes then (holds m, true) else (file, false)

unfoldable pub due_or_false : Option ℤ → ℕ → Bool
unfolding is_due
due_or_false none now = false
due_or_false (some exp) now = is_due exp now

module _ (token_hash : String → String) where
  unfoldable pub set_expiry : Host → File → String → ℤ → File × Bool
  unfolding load_pruned store
  set_expiry host file plaintext expires_at =
      store host file (insert (token_hash plaintext) expires_at (load_pruned host file))

  unfoldable pub is_expired : Host → File → String → Bool
  unfolding entries due_or_false now_epoch
  is_expired host file plaintext =
      if host.located
      then due_or_false (lookup (token_hash plaintext) (entries file)) (now_epoch host)
      else false

  unfoldable pub forget : Host → File → String → File
  unfolding load_pruned store
  forget host file plaintext =
      let m = load_pruned host file in
      if is_some (lookup (token_hash plaintext) m)
      then (store host file (remove (token_hash plaintext) m)).0
      else file
