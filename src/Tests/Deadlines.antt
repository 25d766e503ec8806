-- ===== src/Tests/Deadlines.antt =====
-- muxrd/src/token_expiry.rs: a pairing token whose deadline has passed, and one made after it.
use muxr_core.Base.{◌≡◌, refl, String, some, true, false, [], ◌∷◌, string_discrete, lookup}
use muxr_core.TokenExpiry.{pos, File, holds, Host, set_expiry, is_expired, entries}
use muxr_core.TokenExpiry.Pruned.{DistinctFile, is_expired-set_expiry}

abbrev host : Host
host = record { located = true; writes = true; clock = some 100 }

abbrev later : Host
later = record host { clock = some 200 }

abbrev sidecar : File
sidecar = holds (("old", pos 60) ∷ ("open", pos 150) ∷ [])

abbrev itself : String → String
itself s = s

old_passed : is_expired itself host sidecar "old" ≡ true
unfolding is_expired entries lookup string_discrete
old_passed = refl

sidecar-DistinctFile : DistinctFile sidecar
unfolding lookup string_discrete entries
sidecar-DistinctFile = (refl, (refl, tt))

is_expired-set_expiry_example :
    is_expired itself later (set_expiry itself host sidecar "new" (pos 500)).0 "old" ≡ false
unfolding is_expired entries lookup string_discrete
is_expired-set_expiry_example =
    is_expired-set_expiry itself host later sidecar sidecar-DistinctFile "new" "old" (pos 500)
