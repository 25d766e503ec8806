-- ===== src/Service.antt =====
-- muxr-notify/src/store.rs and muxr-notify/src/handlers.rs: the registrations of the notification
-- service and its handlers. The table is a map by its primary key. A day is a number, and the
-- empty day of a new row is none. A request carries the limiters' verdicts, the database's state
-- and the upstream's answer for it.
pub mod Cap
use muxr_core.Base.{
  ◌≡◌, ℕ, suc, ◌/◌, ◌%◌, ◌^◌, ◌+◌, String, string_key, string_discrete, Option, none, some, Bool,
  true, false, not, ◌&&◌, ◌||◌, ltb, leb, Map, lookup, insert, remove, if◌then◌else◌, ite,
  ℕ_discrete,
}

abbrev pub max_title_chars : ℕ
max_title_chars = 100

abbrev pub max_body_chars : ℕ
max_body_chars = 512

abbrev pub max_token_chars : ℕ
max_token_chars = 512

pub record Registration : Type 0 where
  pub platform : String
  pub fcm_token : String
  pub created_at : ℕ
  pub last_send : Option ℕ
  pub day_bucket : Option ℕ
  pub sends_today : ℕ
  pub pruned : Bool

abbrev pub Store : Type 0
Store = Map String Registration

unfoldable pub day_of : ℕ → ℕ
day_of now = now / 86400

abbrev pub is_day : ℕ → Option ℕ → Bool
is_day day none = false
is_day day (some d) = ite (ℕ_discrete d day) true false

-- The insertion of a row, which fails when the key is taken.
unfoldable pub insert_row : Store → String → String → String → ℕ → Store × Option String
insert_row s platform token handle now = elim (lookup handle s) [
  | some r ↦ (s, none)
  | none ↦ (
    insert handle
        (record {
          platform = platform;
          fcm_token = token;
          created_at = now;
          last_send = none;
          day_bucket = none;
          sends_today = 0;
          pruned = false;
        })
        s,
    some handle,
  )
]

unfoldable pub register_row :
    Store → String → String → Option String → String → ℕ → Store × Option String
unfolding insert_row
register_row s platform token none new_handle now = insert_row s platform token new_handle now
register_row s platform token (some handle) new_handle now = elim (lookup handle s) [
  | none ↦ insert_row s platform token new_handle now
  | some r ↦ (
    insert handle (record r { fcm_token = token; platform = platform; pruned = false }) s,
    some handle,
  )
]

unfoldable pub record_send : Store → String → ℕ → ℕ → Store
record_send s handle day now = elim (lookup handle s) [
  | none ↦ s
  | some r ↦
      insert handle
        (record r {
          sends_today = if is_day day r.day_bucket then suc r.sends_today else 1;
          day_bucket = some day;
          last_send = some now;
        })
        s
]

unfoldable pub mark_pruned : Store → String → Store
mark_pruned s handle = elim (lookup handle s) [
  | none ↦ s
  | some r ↦ insert handle (record r { pruned = true }) s
]

unfoldable pub delete : Store → String → Store
delete s handle = remove handle s

pub data SendOutcome : Type 0 where
  delivered : SendOutcome
  unregistered : SendOutcome
  upstream_error : SendOutcome
  send_failed : SendOutcome

pub data StatusCode : Type 0 where
  no_content : StatusCode
  bad_request : StatusCode
  not_found : StatusCode
  gone : StatusCode
  too_many_requests : StatusCode
  internal_error : StatusCode
  bad_gateway : StatusCode

pub record NotifyRequest : Type 0 where
  pub push_handle : String
  pub title_len : ℕ
  pub body_len : ℕ
  pub now : ℕ
  pub ip_allowed : Bool
  pub handle_allowed : Bool
  pub readable : Bool
  pub writable : Bool
  pub outcome : SendOutcome

-- After the upstream's answer.
unfoldable pub after_send : NotifyRequest → Store → SendOutcome → Store × StatusCode
unfolding record_send mark_pruned
after_send q s delivered =
    (if q.writable then record_send s q.push_handle (day_of q.now) q.now else s, no_content)
after_send q s unregistered = (if q.writable then mark_pruned s q.push_handle else s, gone)
after_send q s upstream_error = (s, bad_gateway)
after_send q s send_failed = (s, bad_gateway)

-- A row's count is read as 32 bits.
unfoldable pub at_cap : ℕ → Registration → ℕ → Bool
at_cap cap r now = is_day (day_of now) r.day_bucket && leb cap (r.sends_today % 2 ^ 32)

unfoldable pub notify_found : ℕ → NotifyRequest → Store → Registration → Store × StatusCode
unfolding at_cap after_send
notify_found cap q s r =
    if r.pruned
    then (s, gone)
    else (if at_cap cap r q.now
        then (s, too_many_requests)
        else (if q.handle_allowed then after_send q s q.outcome else (s, too_many_requests)))

unfoldable pub notify : ℕ → NotifyRequest → Store → Store × StatusCode
unfolding notify_found
notify cap q s =
    if not q.ip_allowed
    then (s, too_many_requests)
    else (if ltb max_title_chars q.title_len || ltb max_body_chars q.body_len
        then (s, bad_request)
        else (if not q.readable then (s, internal_error) else (elim (lookup q.push_handle s) [
          | none ↦ (s, not_found)
          | some r ↦ notify_found cap q s r
        ])))

-- `blank` tells that the token is white space only, and `token_chars` counts its characters.
pub record RegisterRequest : Type 0 where
  pub platform : String
  pub fcm_token : String
  pub blank : Bool
  pub token_chars : ℕ
  pub existing_handle : Option String
  pub new_handle : String
  pub now : ℕ
  pub ip_allowed : Bool
  pub writable : Bool

pub data RegisterAnswer : Type 0 where
  registered : String → RegisterAnswer
  refused : StatusCode → RegisterAnswer

unfoldable pub given : Store × Option String → Store × RegisterAnswer
given (s, none) = (s, refused internal_error)
given (s, some handle) = (s, registered handle)

unfoldable pub register : RegisterRequest → Store → Store × RegisterAnswer
unfolding register_row given
register q s =
    if not q.ip_allowed
    then (s, refused too_many_requests)
    else (ite (string_discrete q.platform "android")
        (if q.blank || ltb max_token_chars q.token_chars
          then (s, refused bad_request)
          else (if q.writable
              then given
                  (register_row s q.platform q.fcm_token q.existing_handle q.new_handle q.now)
              else (s, refused internal_error)))
        (s, refused bad_request))

unfoldable pub delete_registration : Bool → Bool → String → Store → Store × StatusCode
unfolding delete
delete_registration ip_allowed writable handle s =
    if not ip_allowed
    then (s, too_many_requests)
    else (if writable then (delete s handle, no_content) else (s, internal_error))
