-- ===== src/Auth/RoundTrip.antt =====
-- internal/auth/jwt_service.go: tokens that were generated, validated later.
use chat2sql.Prelude.{
  ℕ, ◌+◌, ◌*◌, ◌/◌, ◌≤◌, ◌<◌, ◌≡◌, ap, true, false, Option, none, some, Bytes, codes, same_bytes,
  Outcome, ok, err, ℤ, is_positive, is_empty, refl, some_subst, arith,
}
use chat2sql.Auth.Claims.{
  Claims, AuthError, validate, is_known_type, second, numeric_date, signing_failed,
  not_refresh_token, not_access_token,
}
use chat2sql.Auth.Library.{Jwt, JwtLaws, IsCurrent}
use chat2sql.Auth.Tokens.{
  JwtService, TokenPair, Instants, key_for_rsa, claims_for, access_claims, refresh_claims,
  generate_token_pair, validate_token, validate_access_token, validate_refresh_token,
  refresh_token_pair, require, ◌>>=◌,
}

-- The claims of a user that may have tokens.
pub record IsUser (user_id : ℤ) (username : Bytes) : Type 0 where
  pub positive : is_positive user_id ≡ true
  pub named : is_empty username ≡ false

validate-known :
    (c : Claims)
    → IsUser c.user_id c.username
    → is_known_type c.token_type ≡ true
    → validate c ≡ ok tt
unfolding validate
validate-known c user known = rw (user.positive, user.named, known)

-- What of a result is one of its tokens.
abbrev token_of : (TokenPair → Bytes) → Outcome AuthError TokenPair → Option Bytes
token_of f (ok pair) = some (f pair)
token_of f (err e) = none

pub numeric_date-le : (t : ℕ) → numeric_date t * second ≤ t
numeric_date-le t = omega arith

module _ {J : Jwt} (j : JwtService J) where
  -- The tokens of a pair are what was signed.
  pub generate_token_pair-signed :
      (user_id : ℤ) (username role : Bytes) (t : Instants) (pair : TokenPair)
      → generate_token_pair J j user_id username role t ≡ ok pair
      → (J.sign j.private_key (access_claims J j user_id username role t) ≡ some pair.access_token)
        × (J.sign j.private_key (refresh_claims J j user_id username role t)
            ≡ some pair.refresh_token)
  unfolding generate_token_pair
  generate_token_pair-signed user_id username role t pair =
      tokens (J.sign j.private_key (access_claims J j user_id username role t))
        (J.sign j.private_key (refresh_claims J j user_id username role t))
    where
      tokens :
          (a r : Option Bytes)
          → (do
            access ← require a signing_failed
            refresh ← require r signing_failed
            ok (record {
              access_token = access;
              refresh_token = refresh;
              token_type = codes "Bearer";
              expires_in = j.access_token_ttl / second;
              expires_at = t.now + j.access_token_ttl;
            }))
            ≡ ok pair
          → (a ≡ some pair.access_token) × (r ≡ some pair.refresh_token)
      tokens none r p = grind arith
      tokens (some a) none p = grind arith
      tokens (some a) (some r) p =
          (ap (token_of (λ q. q.access_token)) p, ap (token_of (λ q. q.refresh_token)) p)

  -- The claims of a token that has not expired are current.
  pub claims_for-IsCurrent :
      (user_id : ℤ) (username role token_type : Bytes) (ttl now made later : ℕ)
      → IsUser user_id username
      → is_known_type token_type ≡ true
      → now ≤ later
      → later < numeric_date (now + ttl) * second
      → IsCurrent later (claims_for J j user_id username role token_type ttl now made)
  unfolding claims_for
  claims_for-IsCurrent user_id username role token_type ttl now made later user known after before =
      record {
        until = λ e p. some_subst (λ d. later < d * second) p before;
        since = λ b p. some_subst (λ d. d * second ≤ later) p (begins later after);
        sound = validate-known _ user known;
      }
    where
      begins : (m : ℕ) → now ≤ m → numeric_date now * second ≤ m
      begins m after = omega arith

module _ {J : Jwt} (laws : JwtLaws J) (j : JwtService J)
    (paired : j.public_key ≡ J.public_of j.private_key) where
  -- What a signed text with current claims validates to.
  pub validate_token-sign :
      (now : ℕ) (c : Claims) (s : Bytes)
      → J.sign j.private_key c ≡ some s
      → IsCurrent now c
      → validate_token J j now s ≡ ok c
  unfolding validate_token
  validate_token-sign now c s signed current = rw (
    laws.parse-sign j.private_key (key_for_rsa J j) now c s signed (ap some paired) current,
    current.sound,
  )

  -- The validations of a signed text with current claims look at the type of the token.
  validate_access_token-sign :
      (now : ℕ) (c : Claims) (s : Bytes)
      → J.sign j.private_key c ≡ some s
      → IsCurrent now c
      → (same_bytes c.token_type (codes "access") ≡ true → validate_access_token J j now s ≡ ok c)
        × (same_bytes c.token_type (codes "access") ≡ false
            → validate_access_token J j now s ≡ err not_access_token)
  unfolding validate_access_token
  validate_access_token-sign now c s signed current =
      let valid = validate_token-sign now c s signed current in
      (λ e. rw (valid, e), λ e. rw (valid, e))

  validate_refresh_token-sign :
      (now : ℕ) (c : Claims) (s : Bytes)
      → J.sign j.private_key c ≡ some s
      → IsCurrent now c
      → (same_bytes c.token_type (codes "refresh") ≡ true → validate_refresh_token J j now s ≡ ok c)
        × (same_bytes c.token_type (codes "refresh") ≡ false
            → validate_refresh_token J j now s ≡ err not_refresh_token)
  unfolding validate_refresh_token
  validate_refresh_token-sign now c s signed current =
      let valid = validate_token-sign now c s signed current in
      (λ e. rw (valid, e), λ e. rw (valid, e))

  module _ (user_id : ℤ) (username role : Bytes) (t : Instants) (pair : TokenPair)
      (user : IsUser user_id username)
      (generated : generate_token_pair J j user_id username role t ≡ ok pair) (later : ℕ)
      (after : t.now ≤ later) where
    -- An access token whose time is not over is accepted for the user, and is no refresh token.
    pub access_token-validates :
        later < numeric_date (t.now + j.access_token_ttl) * second
        → (validate_access_token J j later pair.access_token
            ≡ ok (access_claims J j user_id username role t))
          × (validate_refresh_token J j later pair.access_token ≡ err not_refresh_token)
    unfolding claims_for is_known_type same_bytes
    access_token-validates before =
        let signed = (generate_token_pair-signed j user_id username role t pair generated).0 in
        let current =
          claims_for-IsCurrent j user_id username role (codes "access") j.access_token_ttl t.now
            t.access_made later user refl after before in
        (
          (validate_access_token-sign later _ _ signed current).0 refl,
          (validate_refresh_token-sign later _ _ signed current).1 refl,
        )

    -- A refresh token whose time is not over is accepted for the user, and is no access token.
    pub refresh_token-validates :
        later < numeric_date (t.now + j.refresh_token_ttl) * second
        → (validate_refresh_token J j later pair.refresh_token
            ≡ ok (refresh_claims J j user_id username role t))
          × (validate_access_token J j later pair.refresh_token ≡ err not_access_token)
    unfolding claims_for is_known_type same_bytes
    refresh_token-validates before =
        let signed = (generate_token_pair-signed j user_id username role t pair generated).1 in
        let current =
          claims_for-IsCurrent j user_id username role (codes "refresh") j.refresh_token_ttl t.now
            t.refresh_made later user refl after before in
        (
          (validate_refresh_token-sign later _ _ signed current).0 refl,
          (validate_access_token-sign later _ _ signed current).1 refl,
        )

    -- A refresh token whose own time is not over gives its user a new pair, whether or not the time of the
    -- access token is over; while that is not over, the access token gives no pair.
    pub refresh_token_pair-generates :
        (access_made refresh_made : ℕ)
        → later < numeric_date (t.now + j.refresh_token_ttl) * second
        → let again : Instants = record {
          now = later;
          access_made = access_made;
          refresh_made = refresh_made;
        } in
          (refresh_token_pair J j pair.refresh_token again
            ≡ generate_token_pair J j user_id username role again)
          × (later < numeric_date (t.now + j.access_token_ttl) * second
              → refresh_token_pair J j pair.access_token again ≡ err not_refresh_token)
    unfolding refresh_token_pair claims_for
    refresh_token_pair-generates access_made refresh_made before_refresh = (
      rw ((refresh_token-validates before_refresh).0),
      λ before_access. rw ((access_token-validates before_access).1),
    )
