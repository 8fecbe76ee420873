-- ===== src/Middleware/Guard.antt =====
-- internal/middleware/auth.go: `JWTAuth` and `OptionalAuth`.
use chat2sql.Prelude.{ℕ, ◌*◌, true, false, some, codes, ok, err, if◌then◌else◌, is_empty}
use chat2sql.Auth.Claims.{Claims, second}
use chat2sql.Auth.Library.{Jwt, Redis}
use chat2sql.Auth.Tokens.{JwtService, validate_token_from_request, is_token_expiring_soon}
use chat2sql.Auth.Revocation.{is_token_revoked}
use chat2sql.Middleware.Context.{
  Request, Context, set_header, Answer, next, abort, missing_auth_header, invalid_token,
  token_revoked,
}

-- The readings of the clock, in their order.
pub record Readings : Type 0 where
  pub validated : ℕ
  pub looked_up : ℕ
  pub finished : ℕ

unfoldable pub with_claims : Claims → Context → Context
with_claims c ctx = record ctx {
  user_id = some c.user_id;
  username = some c.username;
  user_role = some c.role;
  jwt_claims = some c;
}

-- What follows the two checks.
unfoldable pub admit : ℕ → Claims → Context → Answer
unfolding with_claims
admit now c ctx =
    let told : Context =
      if is_token_expiring_soon now c (300 * second)
      then set_header (codes "X-Token-Expiring") (codes "true") ctx
      else ctx in
    next (with_claims c told)

module _ (J : Jwt) (R : Redis) where
  -- The blacklist is asked about the whole header; an error of it is logged, and the request goes on.
  unfoldable pub jwt_auth : JwtService J → Readings → Request → R.Store → Context → Answer
  jwt_auth j t request store ctx =
      if is_empty request.authorization
      then abort missing_auth_header ctx
      else elim (validate_token_from_request J j t.validated request.authorization) [
        | err e ↦ abort (invalid_token e) ctx
        | ok c ↦ elim (is_token_revoked J R j t.looked_up request.authorization store) [
          | err e ↦ admit t.finished c ctx
          | ok true ↦ abort token_revoked ctx
          | ok false ↦ admit t.finished c ctx
        ]
      ]

  -- A token that is refused does not end the request.
  unfoldable pub optional_auth : JwtService J → ℕ → Request → Context → Answer
  optional_auth j now request ctx =
      if is_empty request.authorization
      then next ctx
      else elim (validate_token_from_request J j now request.authorization) [
        | err e ↦ next ctx
        | ok c ↦ next (with_claims c ctx)
      ]
