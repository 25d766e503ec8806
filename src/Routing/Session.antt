-- ===== src/Routing/Session.antt =====
-- muxrd/src/multiplexer/routing.rs, muxrd/src/cli.rs, muxrd/src/multiplexer/mod.rs: ids of sessions
-- and the backends that they name.
use muxr_core.Base.{
  Option, none, some, Bool, true, false, ◌==◌, List, [], ◌∷◌, ◌++◌, if◌then◌else◌, ite,
}
use muxr_core.Routing.Names.{Bytes, bytes_discrete, validate_session_name}

pub data BackendKind : Type 0 where
  zellij : BackendKind
  herdr : BackendKind

-- `Display` for `BackendKind`.
abbrev pub kind_name : BackendKind → Bytes
kind_name zellij = 122 ∷ 101 ∷ 108 ∷ 108 ∷ 105 ∷ 106 ∷ []
kind_name herdr = 104 ∷ 101 ∷ 114 ∷ 100 ∷ 114 ∷ []

unfoldable pub parse_backend_kind : Bytes → Option BackendKind
unfolding bytes_discrete
parse_backend_kind s =
    ite (bytes_discrete s (kind_name zellij)) (some zellij)
      (ite (bytes_discrete s (kind_name herdr)) (some herdr) none)

-- `proto::Backend` and the two conversions.
pub data ProtoBackend : Type 0 where
  proto_zellij : ProtoBackend
  proto_herdr : ProtoBackend
  proto_unspecified : ProtoBackend

abbrev pub proto_backend : BackendKind → ProtoBackend
proto_backend zellij = proto_zellij
proto_backend herdr = proto_herdr

abbrev pub kind_from_proto : ProtoBackend → Option BackendKind
kind_from_proto proto_zellij = some zellij
kind_from_proto proto_herdr = some herdr
kind_from_proto proto_unspecified = none

abbrev pub same_kind : BackendKind → BackendKind → Bool
same_kind zellij zellij = true
same_kind herdr herdr = true
same_kind zellij herdr = false
same_kind herdr zellij = false

-- `str::split_once(':')`.
unfoldable pub split_once : Bytes → Option (Bytes × Bytes)
split_once [] = none
split_once (b ∷ bs) =
    let rest = split_once bs in
    if b == 58 then some ([], bs) else elim rest [ none ↦ none | some (x, y) ↦ some (b ∷ x, y) ]

unfoldable pub is_collapsed_backend_session : Bytes → Bool
unfolding split_once
is_collapsed_backend_session id = elim (split_once id) [
  | none ↦ false
  | some (x, y) ↦ ite (bytes_discrete x (kind_name herdr)) true false
]

unfoldable pub make_id : BackendKind → Bytes → Bytes
make_id kind bare = kind_name kind ++ 58 ∷ bare

pub data Status : Type 0 where
  unknown_backend : Status
  backend_not_running : Status
  ambiguous : Status
  invalid_name : Status

pub data Resolved (B : Type 0) : Type 0 where
  resolved : BackendKind → B → Bytes → Resolved B
  rejected : Status → Resolved B

-- `BackendSet`, whose backends are the implementations of a trait. A set has at least one.
abbrev pub BackendSet : Type 0 → Type 0
BackendSet B = List (BackendKind × B)

module _ {B : Type 0} where
  unfoldable pub get : BackendSet B → BackendKind → Option B
  get [] kind = none
  get ((k, b) ∷ bs) kind = if same_kind k kind then some b else get bs kind

  -- The last step: only the bare name is checked.
  unfoldable pub checked_bare : (Bytes → Bool) → BackendKind → B → Bytes → Resolved B
  checked_bare zellij_valid kind b bare =
      if validate_session_name zellij_valid bare
      then resolved kind b bare
      else rejected invalid_name

  -- The sole backend, for an id without a prefix.
  unfoldable pub sole : (Bytes → Bool) → BackendSet B → Bytes → Resolved B
  unfolding checked_bare
  sole zellij_valid [] id = rejected ambiguous
  sole zellij_valid ((k, b) ∷ []) id = checked_bare zellij_valid k b id
  sole zellij_valid (x ∷ y ∷ bs) id = rejected ambiguous

  unfoldable pub qualified : (Bytes → Bool) → BackendSet B → Bytes → Bytes → Resolved B
  unfolding parse_backend_kind checked_bare get
  qualified zellij_valid set prefix bare = elim (parse_backend_kind prefix) [
    | none ↦ rejected unknown_backend
    | some kind ↦ elim (get set kind) [
      | none ↦ rejected backend_not_running
      | some b ↦ checked_bare zellij_valid kind b bare
    ]
  ]

  unfoldable pub resolve_session_kind : (Bytes → Bool) → BackendSet B → Bytes → Resolved B
  unfolding split_once sole qualified
  resolve_session_kind zellij_valid set id = elim (split_once id) [
    | none ↦ sole zellij_valid set id
    | some (prefix, bare) ↦ qualified zellij_valid set prefix bare
  ]
