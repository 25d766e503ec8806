-- ===== src/Tests/Capped.antt =====
-- The witnesses of muxr-notify/src/store.rs and muxr-notify/src/handlers.rs.
use muxr_core.Base.{
  ◌≡◌, refl, ◌+◌, ◌≤◌, string_key, string_discrete, ℕ_discrete, some, true, false, List, [], ◌∷◌,
  All, lookup, arith,
}
use muxr_core.Service.{Registration, Store, day_of, NotifyRequest, delivered}
use muxr_core.Service.Cap.{sends, For, run, run_capped}

abbrev row : Registration
row = record {
  platform = "android";
  fcm_token = "t";
  created_at = 0;
  last_send = some 86400;
  day_bucket = some 1;
  sends_today = 2;
  pruned = false;
}

abbrev table : Store
table = ("h", row) ∷ []

abbrev request : NotifyRequest
request = record {
  push_handle = "h";
  title_len = 5;
  body_len = 20;
  now = 90000;
  ip_allowed = true;
  handle_allowed = true;
  readable = true;
  writable = true;
  outcome = delivered;
}

abbrev requests : List NotifyRequest
requests = request ∷ request ∷ []

requests-For : All (For "h" 1) requests
unfolding day_of
requests-For = ((refl, refl, refl), ((refl, refl, refl), tt))

table-sends : sends table "h" 1 ≡ 2
unfolding sends lookup string_discrete ℕ_discrete
table-sends = refl

run_capped_example : (run 3 requests table).1 + sends table "h" 1 ≤ 3
run_capped_example =
    run_capped 3 "h" 1 requests table (omega arith) (omega arith) requests-For
      (omega (arith, table-sends))

table_row : lookup "h" table ≡ some row
unfolding lookup string_discrete
table_row = refl
