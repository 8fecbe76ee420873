-- ===== src/Middleware/Access.antt =====
-- internal/middleware/auth.go: which requests the middleware lets through, and as whom.
use chat2sql.Prelude.{
  ℕ, ◌≡◌, refl, ap, subst, ◌∙◌, Bool, true, false, not, some, Bytes, codes, ◌++◌, drop, has_prefix,
  has_prefix-append, is_empty, Outcome, ok, err, if◌then◌else◌, Outcome-cases, inl, inr, ok_subst,
  arith, ◌*◌,
}
use chat2sql.Auth.Claims.{
  Claims, AuthError, second, parse_failed, header_empty, header_format, token_empty,
}
use chat2sql.Auth.Library.{Jwt, JwtLaws, Redis}
use chat2sql.Auth.Tokens.{
  JwtService, any_key, extract_token_from_header, validate_token_from_request,
  is_token_expiring_soon, get_token_claims,
}
use chat2sql.Auth.Revocation.{is_token_revoked}
use chat2sql.Middleware.Context.{
  Request, Context, Answer, next, abort, then_run, set_header, missing_auth_header, invalid_token,
  token_revoked, insufficient_permissions,
}
use chat2sql.Middleware.Guard.{Readings, with_claims, admit, jwt_auth}
use chat2sql.Middleware.Roles.{check_permission, require_permission, user_id_from_request}

-- A header with a token begins with "Bearer ".
extract_token_from_header-append :
    (header s : Bytes) → extract_token_from_header header ≡ ok s → header ≡ codes "Bearer " ++ s
unfolding extract_token_from_header
extract_token_from_header-append header s =
    split (is_empty header) (has_prefix (codes "Bearer ") header) (is_empty (drop 7 header)) refl
  where
    split :
        (a b c : Bool)
        → has_prefix (codes "Bearer ") header ≡ b
        → (if a
            then err header_empty
            else if not b
            then err header_format
            else if c
            then err token_empty
            else ok (drop 7 header))
          ≡ ok s
        → header ≡ codes "Bearer " ++ s
    split true b c p h = grind arith
    split false false c p h = grind arith
    split false true true p h = grind arith
    split false true false p h =
        has_prefix-append (codes "Bearer ") header p
        ∙ ap (λ rest. codes "Bearer " ++ rest) (ok_subst (λ rest. drop 7 header ≡ rest) h refl)

-- A request that is validated has a header with a token.
validate_token_from_request-append :
    {J : Jwt} (j : JwtService J) (now : ℕ) (header : Bytes) (c : Claims)
    → validate_token_from_request J j now header ≡ ok c
    → (s : Bytes) × (header ≡ codes "Bearer " ++ s)
unfolding validate_token_from_request
validate_token_from_request-append j now header c valid =
    elim (Outcome-cases (extract_token_from_header header)) [
      | inl (s, found) ↦ (s, extract_token_from_header-append header s found)
      | inr (e, missing) ↦
          let refused : validate_token_from_request _ j now header ≡ err e =
            rw (validate_token_from_request, missing) in
          grind arith
    ]

module _ {J : Jwt} (laws : JwtLaws J) (R : Redis) (j : JwtService J) where
  -- The library refuses the header that the blacklist is asked about.
  is_token_revoked-header :
      (now : ℕ) (s : Bytes) (store : R.Store)
      → is_token_revoked J R j now (codes "Bearer " ++ s) store ≡ err parse_failed
  unfolding is_token_revoked get_token_claims
  is_token_revoked-header now s store = rw (laws.parse-header (any_key J j) false now s)

  -- A header with a valid access token is admitted, and one without is refused, whatever the store holds:
  -- a token that is on the blacklist is admitted as well.
  pub jwt_auth-admits :
      (t : Readings) (request : Request) (store : R.Store) (ctx : Context)
      → is_empty request.authorization ≡ false
      → ((c : Claims)
          → validate_token_from_request J j t.validated request.authorization ≡ ok c
          → jwt_auth J R j t request store ctx ≡ admit t.finished c ctx)
        × ((e : AuthError)
            → validate_token_from_request J j t.validated request.authorization ≡ err e
            → jwt_auth J R j t request store ctx ≡ abort (invalid_token e) ctx)
  unfolding jwt_auth
  jwt_auth-admits t request store ctx given = (
    λ c valid.
        let (s, header) =
          validate_token_from_request-append j t.validated request.authorization c valid in
        let asked : is_token_revoked J R j t.looked_up request.authorization store
            ≡ err parse_failed =
          ap (λ h. is_token_revoked J R j t.looked_up h store) header
          ∙ is_token_revoked-header t.looked_up s store in
        rw (given, valid, asked),
    λ e refused. rw (given, refused),
  )

abbrev context_of : Context → Answer → Context
context_of ctx (next ctx') = ctx'
context_of ctx (abort r ctx') = ctx

next_subst : (P : Context → Type 0) {a b : Context} → next a ≡ next b → P a → P b
next_subst P {a} e h = subst P (ap (context_of a) e) h

-- What a handler behind a permission relies on.
pub record IsPermitted (permission : Bytes) (request : Request) (c : Claims) (ctx : Context)
    : Type 0 where
  pub permitted : check_permission c.role permission ≡ true
  pub user : user_id_from_request request ctx ≡ c.user_id
  pub claims : ctx.jwt_claims ≡ some c

admit-IsPermitted :
    (now : ℕ) (permission : Bytes) (request : Request) (c : Claims) (ctx ctx' : Context)
    → then_run (admit now c ctx) (require_permission permission) ≡ next ctx'
    → IsPermitted permission request c ctx'
unfolding admit with_claims require_permission user_id_from_request
admit-IsPermitted now permission request c ctx ctx' =
    split (check_permission c.role permission) refl
  where
    told : Context
    told =
        if is_token_expiring_soon now c (300 * second)
        then set_header (codes "X-Token-Expiring") (codes "true") ctx
        else ctx

    split :
        (b : Bool)
        → check_permission c.role permission ≡ b
        → (if b
            then next (with_claims c told)
            else abort insufficient_permissions (with_claims c told))
          ≡ next ctx'
        → IsPermitted permission request c ctx'
    split true p h =
        next_subst (IsPermitted permission request c) h
          (record { permitted = p; user = refl; claims = refl })
    split false p h = grind arith

-- A handler behind both checks runs only for a request with a valid access token whose role has the
-- permission, and it finds the user of that token.
pub then_run-IsPermitted :
    (J : Jwt) (R : Redis) (j : JwtService J) (t : Readings) (permission : Bytes) (request : Request)
    (store : R.Store) (ctx ctx' : Context)
    → then_run (jwt_auth J R j t request store ctx) (require_permission permission) ≡ next ctx'
    → (c : Claims) × (validate_token_from_request J j t.validated request.authorization ≡ ok c)
      × IsPermitted permission request c ctx'
unfolding jwt_auth
then_run-IsPermitted J R j t permission request store ctx ctx' h =
    split (is_empty request.authorization)
      (validate_token_from_request J j t.validated request.authorization)
      (is_token_revoked J R j t.looked_up request.authorization store) h
  where
    answer : Bool → Outcome AuthError Claims → Outcome AuthError Bool → Answer
    answer empty valid asked = if empty then abort missing_auth_header ctx else elim valid [
      | err e ↦ abort (invalid_token e) ctx
      | ok c ↦ elim asked [
        | err e ↦ admit t.finished c ctx
        | ok true ↦ abort token_revoked ctx
        | ok false ↦ admit t.finished c ctx
      ]
    ]

    split :
        (empty : Bool) (valid : Outcome AuthError Claims) (asked : Outcome AuthError Bool)
        → then_run (answer empty valid asked) (require_permission permission) ≡ next ctx'
        → (c : Claims) × (valid ≡ ok c) × IsPermitted permission request c ctx'
    split true valid asked h = grind arith
    split false (err e) asked h = grind arith
    split false (ok c) (err e) h =
        (c, refl, admit-IsPermitted t.finished permission request c ctx ctx' h)
    split false (ok c) (ok true) h = grind arith
    split false (ok c) (ok false) h =
        (c, refl, admit-IsPermitted t.finished permission request c ctx ctx' h)
