-- ===== src/Auth/Gate.antt =====
-- muxrd/src/auth.rs and muxrd/src/grpc/helpers.rs: who gets past the layer and the gate of the RPCs
-- that change something.
use muxr_core.Base.{
  ◌≡◌, refl, sym, ap, subst, ◌∙◌, String, Option, none, some, Bool, true, false, is_some, arith,
  Option-cases, inl, inr, [], ◌∷◌, ◌++◌,
}
use muxr_core.Routing.Names.{Bytes, is_empty}
use muxr_core.Routing.Control.{reject_if_read_only}
use muxr_core.Auth.{
  Tokens, Header, absent, not_ascii, text, accepted, bearer, strip_prefix, read_only_or_true,
  check_token, check_bearer, Extensions, forwarded, call,
}

strip_prefix_lem : (ps bs rest : Bytes) → strip_prefix ps bs ≡ some rest → bs ≡ ps ++ rest
unfolding strip_prefix
strip_prefix_lem [] bs rest h = ground arith
strip_prefix_lem (p ∷ ps) [] rest h = ground arith
strip_prefix_lem (p ∷ ps) (b ∷ bs) rest h = ground (arith, strip_prefix_lem ps bs rest)

-- The header carries the token, and the database has the token as a valid one.
pub record Authentic (tokens : Tokens) (header : Header) (token : Bytes) : Type 0 where
  pub carried : header ≡ text (bearer ++ token)
  pub present : is_empty token ≡ false
  pub valid : tokens.validate token ≡ some true

check_token_lem :
    (tokens : Tokens) (t : Bytes) (read_only : Bool) (token : Bytes)
    → check_token tokens t ≡ accepted read_only token
    → (t ≡ token)
      × (is_empty t ≡ false)
      × (tokens.validate t ≡ some true)
      × (read_only ≡ read_only_or_true (tokens.is_read_only t))
unfolding check_token
check_token_lem tokens t ro token h = (ground arith, ground arith, ground arith, ground arith)

check_stripped :
    (tokens : Tokens) (value t : Bytes)
    → strip_prefix bearer value ≡ some t
    → check_bearer tokens (text value) ≡ check_token tokens t
unfolding check_bearer
check_stripped tokens value t e = rw (check_bearer, e) refl

-- What an accepted header carries, and the flag that is read for it.
abbrev pub Accepted : Tokens → Header → Bool → Bytes → Type 0
Accepted tokens header ro token =
    Authentic tokens header token × (ro ≡ read_only_or_true (tokens.is_read_only token))

check_bearer-Accepted :
    (tokens : Tokens) (header : Header) (ro : Bool) (token : Bytes)
    → check_bearer tokens header ≡ accepted ro token
    → Accepted tokens header ro token
unfolding check_bearer
check_bearer-Accepted tokens absent ro token h = ground arith
check_bearer-Accepted tokens not_ascii ro token h = ground arith
check_bearer-Accepted tokens (text value) ro token h =
    elim (Option-cases (strip_prefix bearer value)) [
      | inl e ↦ ground arith
      | inr (t, e) ↦
          let l = check_token_lem tokens t ro token (sym (check_stripped tokens value t e) ∙ h) in
          subst (λ (x : Bytes). Accepted tokens (text value) ro x) l.0
            (
              record {
                carried = ap text (strip_prefix_lem bearer value t e);
                present = l.1;
                valid = l.2;
              },
              l.3,
            )
    ]

module _ (tokens : Tokens) (path : String) (header : Header) (ext : Extensions)
    (h : call tokens path header ≡ forwarded ext)
    (g : reject_if_read_only ext.read_only ≡ none) where
  forwarded_token : is_some ext.token ≡ true
  unfolding call reject_if_read_only
  forwarded_token = ground arith

  forwarded_accepted :
      (token : Bytes) → ext.token ≡ some token → check_bearer tokens header ≡ accepted false token
  unfolding call reject_if_read_only
  forwarded_accepted token e = ground arith

writable_flag : (o : Option Bool) → false ≡ read_only_or_true o → o ≡ some false
unfolding read_only_or_true
writable_flag none h = cc
writable_flag (some b) h = ground arith

-- A request that gets past the layer and past the gate of the RPCs that change something carries a
-- token that the database holds valid and, without an error, not read-only, on every path.
pub call-reject_if_read_only :
    (tokens : Tokens) (path : String) (header : Header) (ext : Extensions)
    → call tokens path header ≡ forwarded ext
    → reject_if_read_only ext.read_only ≡ none
    → (is_some ext.token ≡ true)
      × ((token : Bytes)
          → ext.token ≡ some token
          → Authentic tokens header token × (tokens.is_read_only token ≡ some false))
call-reject_if_read_only tokens path header ext h g = (
  forwarded_token tokens path header ext h g,
  λ token e.
      let a =
        check_bearer-Accepted tokens header false token
          (forwarded_accepted tokens path header ext h g token e) in
      (a.0, writable_flag (tokens.is_read_only token) a.1),
)
