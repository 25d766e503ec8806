-- ===== src/Routing/Resolve.antt =====
-- muxrd/src/multiplexer/routing.rs: ids resolve to what they were made from, and only to names that
-- are safe.
use muxr_core.Base.{
  ◌≡◌, ◌≢◌, refl, sym, ◌∙◌, none, some, Bool, true, false, ℕ_discrete, arith, [], ◌∷◌, All,
  Option-cases, inl, inr,
}
use muxr_core.Routing.Names.{
  Bytes, Harmless, validate_session_name, validate_session_name-Harmless, bytes_discrete,
}
use muxr_core.Routing.Session.{
  BackendKind, zellij, herdr, kind_name, parse_backend_kind, split_once, make_id, BackendSet,
  resolved, get, checked_bare, sole, qualified, resolve_session_kind, is_collapsed_backend_session,
}

split_once-make_id :
    (kind : BackendKind) (bare : Bytes)
    → split_once (make_id kind bare) ≡ some (kind_name kind, bare)
unfolding split_once make_id
split_once-make_id zellij bare = refl
split_once-make_id herdr bare = refl

parse_backend_kind-kind_name :
    (kind : BackendKind) → parse_backend_kind (kind_name kind) ≡ some kind
unfolding parse_backend_kind bytes_discrete ℕ_discrete
parse_backend_kind-kind_name zellij = refl
parse_backend_kind-kind_name herdr = refl

module _ {B : Type 0} (zellij_valid : Bytes → Bool) (set : BackendSet B) where
  resolve_split :
      (id x y : Bytes)
      → split_once id ≡ some (x, y)
      → resolve_session_kind zellij_valid set id ≡ qualified zellij_valid set x y
  unfolding resolve_session_kind
  resolve_split id x y h = rw (resolve_session_kind, h) refl

  resolve_none :
      (id : Bytes)
      → split_once id ≡ none
      → resolve_session_kind zellij_valid set id ≡ sole zellij_valid set id
  unfolding resolve_session_kind
  resolve_none id h = rw (resolve_session_kind, h) refl

  qualified_found :
      (x bare : Bytes) (kind : BackendKind) (b : B)
      → parse_backend_kind x ≡ some kind
      → get set kind ≡ some b
      → qualified zellij_valid set x bare ≡ checked_bare zellij_valid kind b bare
  unfolding qualified
  qualified_found x bare kind b p g = ground arith

  checked_bare_resolved :
      (kind : BackendKind) (b : B) (bare : Bytes)
      → validate_session_name zellij_valid bare ≡ true
      → checked_bare zellij_valid kind b bare ≡ resolved kind b bare
  unfolding checked_bare
  checked_bare_resolved kind b bare v = rw v refl

  checked_bare_valid :
      (k kind : BackendKind) (b c : B) (x bare : Bytes)
      → checked_bare zellij_valid k b x ≡ resolved kind c bare
      → validate_session_name zellij_valid bare ≡ true
  unfolding checked_bare
  checked_bare_valid k kind b c x bare h = ground arith

-- The id made for a backend that runs and a valid name resolves to that backend and that name.
pub resolve_session_kind-make_id :
    {B : Type 0} (zellij_valid : Bytes → Bool) (set : BackendSet B) (kind : BackendKind) (b : B)
    (bare : Bytes)
    → get set kind ≡ some b
    → validate_session_name zellij_valid bare ≡ true
    → resolve_session_kind zellij_valid set (make_id kind bare) ≡ resolved kind b bare
resolve_session_kind-make_id zv set kind b bare h v =
    resolve_split zv set (make_id kind bare) (kind_name kind) bare (split_once-make_id kind bare)
    ∙ qualified_found zv set (kind_name kind) bare kind b (parse_backend_kind-kind_name kind) h
    ∙ checked_bare_resolved zv set kind b bare v

sole_valid :
    {B : Type 0} (zv : Bytes → Bool) (set : BackendSet B) (id : Bytes) (kind : BackendKind) (b : B)
    (bare : Bytes)
    → sole zv set id ≡ resolved kind b bare
    → validate_session_name zv bare ≡ true
unfolding sole
sole_valid zv [] id kind b bare h = ground arith
sole_valid zv ((k, c) ∷ []) id kind b bare h = checked_bare_valid zv [] k kind c b id bare h
sole_valid zv (x ∷ y ∷ bs) id kind b bare h = ground arith

qualified_valid :
    {B : Type 0} (zv : Bytes → Bool) (set : BackendSet B) (x y : Bytes) (kind : BackendKind) (b : B)
    (bare : Bytes)
    → qualified zv set x y ≡ resolved kind b bare
    → validate_session_name zv bare ≡ true
unfolding qualified checked_bare
qualified_valid zv set x y kind b bare h = ground arith

-- Whatever id a client sends, the name that reaches a backend is accepted by the check of names: it
-- is not empty and none of its bytes is part of a path or of an escape.
pub resolve_session_kind-Harmless :
    {B : Type 0} (zellij_valid : Bytes → Bool) (set : BackendSet B) (id : Bytes)
    (kind : BackendKind) (b : B) (bare : Bytes)
    → resolve_session_kind zellij_valid set id ≡ resolved kind b bare
    → (bare ≢ []) × All Harmless bare
resolve_session_kind-Harmless zv set id kind b bare h =
    validate_session_name-Harmless zv bare (elim (Option-cases (split_once id)) [
      | inl e ↦ sole_valid zv set id kind b bare (sym (resolve_none zv set id e) ∙ h)
      | inr ((x, y), e) ↦
          qualified_valid zv set x y kind b bare (sym (resolve_split zv set id x y e) ∙ h)
    ])

-- An id made for herdr is one of a collapsed session, and one made for zellij is not.
pub is_collapsed_backend_session-make_id :
    (bare : Bytes)
    → (is_collapsed_backend_session (make_id herdr bare) ≡ true)
      × (is_collapsed_backend_session (make_id zellij bare) ≡ false)
unfolding is_collapsed_backend_session make_id bytes_discrete ℕ_discrete
is_collapsed_backend_session-make_id bare = (refl, refl)
