-- ===== src/Auth/Blacklist.antt =====
-- internal/auth/jwt_service.go: a token that `RevokeToken` has put on the blacklist.
use chat2sql.Prelude.{
  ℕ, ◌+◌, ◌-◌, ◌*◌, ◌≤◌, ◌<◌, ◌≡◌, ◌≢◌, refl, ap, sym, ◌∙◌, Bool, true, false, Option, none, some,
  Bytes, codes, ok, leb, arith,
}
use chat2sql.Auth.Claims.{Claims, second, store_failed}
use chat2sql.Auth.Library.{Jwt, JwtLaws, Redis, RedisLaws, millisecond}
use chat2sql.Auth.Tokens.{JwtService, any_key, get_token_claims, require, require-ok, ◌>>=◌}
use chat2sql.Auth.Revocation.{blacklist_key, blacklist_ttl, revoke_token, is_token_revoked}

module _ {J : Jwt} (laws : JwtLaws J) {R : Redis} (stored : RedisLaws R) (j : JwtService J)
    (paired : j.public_key ≡ J.public_of j.private_key) where
  -- The claims of a signed text are read whether they are current or not.
  pub get_token_claims-sign :
      (now : ℕ) (c : Claims) (s : Bytes)
      → J.sign j.private_key c ≡ some s
      → get_token_claims J j now s ≡ ok c
  unfolding get_token_claims
  get_token_claims-sign now c s signed =
      rw (laws.parse-sign_unvalidated j.private_key (any_key J j) now c s signed (ap some paired))

  blacklist_ttl-expires :
      (now e : ℕ) (c : Claims)
      → c.expires_at ≡ some e
      → now < e * second
      → blacklist_ttl J R j now c ≡ some (e * second - now)
  unfolding blacklist_ttl
  blacklist_ttl-expires now e c expires alive =
      let running : leb (e * second) now ≡ false = ground arith in rw (expires, running)

  -- The revocation of a token that has not expired asks the store to keep its identifier.
  revoke_token-set :
      (now e : ℕ) (c : Claims) (s : Bytes) (store : R.Store)
      → J.sign j.private_key c ≡ some s
      → c.expires_at ≡ some e
      → now < e * second
      → revoke_token J R j now s store
        ≡ require
            (R.set (blacklist_key c.id) (codes "revoked") (e * second - now) now store)
            store_failed
  unfolding revoke_token
  revoke_token-set now e c s store signed expires alive =
      rw (get_token_claims-sign now c s signed, ◌>>=◌, blacklist_ttl-expires now e c expires alive)

  -- A token that was revoked is found to be revoked until its last millisecond, when the store answers.
  pub is_token_revoked-revoke_token :
      (now later e : ℕ) (c : Claims) (s : Bytes) (store store' : R.Store)
      → J.sign j.private_key c ≡ some s
      → c.expires_at ≡ some e
      → revoke_token J R j now s store ≡ ok store'
      → now ≤ later
      → later + millisecond ≤ e * second
      → R.exists (blacklist_key c.id) later store' ≢ none
      → is_token_revoked J R j later s store' ≡ ok true
  unfolding is_token_revoked
  is_token_revoked-revoke_token now later e c s store store' signed expires revoked after before
        answers =
      let kept =
        stored.exists-set _ _ _ now later store store'
          (require-ok _ _
            (sym (revoke_token-set now e c s store signed expires (omega arith)) ∙ revoked))
          after (omega arith) in
      rw (get_token_claims-sign later c s signed, found _ answers kept)
    where
      found : (o : Option Bool) → o ≢ none → o ≢ some false → o ≡ some true
      found none p q = ground arith
      found (some false) p q = ground arith
      found (some true) p q = refl
