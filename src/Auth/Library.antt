-- ===== src/Auth/Library.antt =====
-- What internal/auth/jwt_service.go uses of the packages jwt and redis, and what it relies on there.
use chat2sql.Prelude.{
  ℕ, ◌+◌, ◌*◌, ◌≤◌, ◌<◌, ◌≡◌, ◌≢◌, Bool, true, false, Option, none, some, Bytes, codes, ◌++◌, ok,
}
use chat2sql.Auth.Claims.{Claims, validate, second}

-- The signing method that a token names in its header.
pub data Method : Type 0 where
  rsa other : Method

pub record Jwt : Type 1 where
  pub PrivateKey : Type 0
  pub PublicKey : Type 0
  -- `PrivateKey.PublicKey`
  pub public_of : PrivateKey → PublicKey
  -- `SignedString` with RS256
  pub sign : PrivateKey → Claims → Option Bytes
  -- `ParseWithClaims`: the key function, whether claims are validated, the time, the text
  pub parse : (Method → Option PublicKey) → Bool → ℕ → Bytes → Option Claims

-- When the validation of claims passes: expiry after now, and not before its time.
pub record IsCurrent (now : ℕ) (c : Claims) : Type 0 where
  pub until : (e : ℕ) → c.expires_at ≡ some e → now < e * second
  pub since : (b : ℕ) → c.not_before ≡ some b → b * second ≤ now
  pub sound : validate c ≡ ok tt

-- A signed text parses to its claims, under the key that belongs to the signer's, while they are
-- current, or where claims are not validated; a text that begins like a header is refused.
pub record JwtLaws (J : Jwt) : Type 0 where
  pub parse-sign :
      (key : J.PrivateKey) (choose : Method → Option J.PublicKey) (now : ℕ) (c : Claims) (s : Bytes)
      → J.sign key c ≡ some s
      → choose rsa ≡ some (J.public_of key)
      → IsCurrent now c
      → J.parse choose true now s ≡ some c
  pub parse-sign_unvalidated :
      (key : J.PrivateKey) (choose : Method → Option J.PublicKey) (now : ℕ) (c : Claims) (s : Bytes)
      → J.sign key c ≡ some s
      → choose rsa ≡ some (J.public_of key)
      → J.parse choose false now s ≡ some c
  pub parse-header :
      (choose : Method → Option J.PublicKey) (validated : Bool) (now : ℕ) (s : Bytes)
      → J.parse choose validated now (codes "Bearer " ++ s) ≡ none

-- A client of a Redis server; `none` is an error.
pub record Redis : Type 1 where
  pub Store : Type 0
  -- the key, the value, how long it is kept, and the time
  pub set : Bytes → Bytes → ℕ → ℕ → Store → Option Store
  pub exists : Bytes → ℕ → Store → Option Bool
  -- an answer without a value is `redis.Nil`
  pub get : Bytes → ℕ → Store → Option (Option Bytes)

-- A key is kept for whole milliseconds.
abbrev pub millisecond : ℕ
millisecond = 1_000_000

-- What was set is there until its time is over, when the server answers.
pub record RedisLaws (R : Redis) : Type 0 where
  pub exists-set :
      (key value : Bytes) (ttl now later : ℕ) (s s' : R.Store)
      → R.set key value ttl now s ≡ some s'
      → now ≤ later
      → later + millisecond ≤ now + ttl
      → R.exists key later s' ≢ some false
  pub get-set :
      (key value : Bytes) (ttl now later : ℕ) (s s' : R.Store) (answer : Option Bytes)
      → R.set key value ttl now s ≡ some s'
      → now ≤ later
      → later + millisecond ≤ now + ttl
      → R.get key later s' ≡ some answer
      → answer ≡ some value
