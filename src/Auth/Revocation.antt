-- ===== src/Auth/Revocation.antt =====
-- internal/auth/jwt_service.go: `RevokeToken` and `IsTokenRevoked`.
use chat2sql.Prelude.{
  ℕ, ◌-◌, ◌*◌, Bool, false, Option, none, some, Bytes, codes, ◌++◌, Outcome, ok, if◌then◌else◌, leb,
}
use chat2sql.Auth.Claims.{Claims, AuthError, second, store_failed}
use chat2sql.Auth.Library.{Jwt, Redis}
use chat2sql.Auth.Tokens.{JwtService, get_token_claims, require, ◌>>=◌}

unfoldable pub blacklist_key : Bytes → Bytes
blacklist_key id = codes "jwt:blacklist:" ++ id

module _ (J : Jwt) (R : Redis) where
  -- How long an entry is kept; `none` when the token has expired.
  unfoldable pub blacklist_ttl : JwtService J → ℕ → Claims → Option ℕ
  blacklist_ttl j now c = elim c.expires_at [
    | none ↦ some j.refresh_token_ttl
    | some e ↦ if leb (e * second) now then none else some (e * second - now)
  ]

  -- The result is the store after the call.
  unfoldable pub revoke_token : JwtService J → ℕ → Bytes → R.Store → Outcome AuthError R.Store
  revoke_token j now token_string store = do
    c ← get_token_claims J j now token_string
    elim (blacklist_ttl j now c) [
      | none ↦ ok store
      | some ttl ↦ require (R.set (blacklist_key c.id) (codes "revoked") ttl now store) store_failed
    ]

  -- An error of the store is an answer of false.
  unfoldable pub is_token_revoked : JwtService J → ℕ → Bytes → R.Store → Outcome AuthError Bool
  is_token_revoked j now token_string store = do
    c ← get_token_claims J j now token_string
    elim (R.exists (blacklist_key c.id) now store) [ none ↦ ok false | some exists ↦ ok exists ]
