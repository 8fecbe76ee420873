-- ===== src/Auth/Tokens.antt =====
-- internal/auth/jwt_service.go: `GenerateTokenPair`, the validations, `RefreshTokenPair` and
-- `ExtractTokenFromHeader`.
use chat2sql.Prelude.{
  ℕ, ◌+◌, ◌*◌, ◌/◌, Bool, true, false, Option, none, some, [], ◌∷◌, ◌++◌, Bytes, codes, same_bytes,
  has_prefix, Outcome, ok, err, ℤ, decimal, decimal_int, if◌then◌else◌, leb, drop, is_empty, not,
  ◌≡◌, arith,
}
use chat2sql.Auth.Claims.{
  Claims, AuthError, validate, numeric_date, second, header_empty, header_format, token_empty,
  token_invalid, not_access_token, not_refresh_token, signing_failed, parse_failed,
}
use chat2sql.Auth.Library.{Jwt, Method, rsa, other}

infixl 5 ◌>>=◌
abbrev pub ◌>>=◌ {ℓ κ} :
    {A : Type ℓ} {B : Type κ}
    → Outcome AuthError A
    → (A → Outcome AuthError B)
    → Outcome AuthError B
ok a >>= f = f a
err e >>= f = err e

-- An answer of the library as a result.
abbrev pub require {ℓ} : {A : Type ℓ} → Option A → AuthError → Outcome AuthError A
require none e = err e
require (some a) e = ok a

pub require-ok :
    {A : Type 0} (e : AuthError) (o : Option A) {a : A} → require o e ≡ ok a → o ≡ some a
require-ok e none p = grind arith
require-ok e (some b) p = grind arith

abbrev pub guard : Bool → AuthError → Outcome AuthError (Unit {0})
guard true e = ok tt
guard false e = err e

pub record TokenPair : Type 0 where
  pub access_token : Bytes
  pub refresh_token : Bytes
  pub token_type : Bytes
  pub expires_in : ℕ
  pub expires_at : ℕ

-- The three readings of the clock: the call's, and one for each identifier.
pub record Instants : Type 0 where
  pub now : ℕ
  pub access_made : ℕ
  pub refresh_made : ℕ

-- `generateJTI`, at the time of its own reading of the clock
unfoldable pub generate_jti : ℕ → Bytes
generate_jti now = codes "jti_" ++ decimal now

unfoldable pub extract_token_from_header : Bytes → Outcome AuthError Bytes
unfolding has_prefix
extract_token_from_header header =
    if is_empty header
    then err header_empty
    else if not (has_prefix (codes "Bearer ") header)
    then err header_format
    else if is_empty (drop 7 header)
    then err token_empty
    else ok (drop 7 header)

-- A claim without an expiry is never about to expire; one that is over is.
unfoldable pub is_token_expiring_soon : ℕ → Claims → ℕ → Bool
is_token_expiring_soon now c threshold = elim c.expires_at [
  | none ↦ false
  | some e ↦ leb (e * second) (now + threshold)
]

module _ (J : Jwt) where
  pub record JwtService : Type 0 where
    pub private_key : J.PrivateKey
    pub public_key : J.PublicKey
    pub issuer : Bytes
    pub audience : Bytes
    pub access_token_ttl : ℕ
    pub refresh_token_ttl : ℕ

  abbrev pub key_for_rsa : JwtService → Method → Option J.PublicKey
  key_for_rsa j rsa = some j.public_key
  key_for_rsa j other = none

  abbrev pub any_key : JwtService → Method → Option J.PublicKey
  any_key j m = some j.public_key

  -- The claims of either token: its type, how long it lives, and when its identifier was made.
  unfoldable pub claims_for : JwtService → ℤ → Bytes → Bytes → Bytes → ℕ → ℕ → ℕ → Claims
  claims_for j user_id username role token_type ttl now made = record {
    user_id = user_id;
    username = username;
    role = role;
    token_type = token_type;
    issuer = j.issuer;
    subject = codes "user:" ++ decimal_int user_id;
    audience = j.audience ∷ [];
    expires_at = some (numeric_date (now + ttl));
    not_before = some (numeric_date now);
    issued_at = some (numeric_date now);
    id = generate_jti made;
  }

  abbrev pub access_claims : JwtService → ℤ → Bytes → Bytes → Instants → Claims
  access_claims j user_id username role t =
      claims_for j user_id username role (codes "access") j.access_token_ttl t.now t.access_made

  abbrev pub refresh_claims : JwtService → ℤ → Bytes → Bytes → Instants → Claims
  refresh_claims j user_id username role t =
      claims_for j user_id username role (codes "refresh") j.refresh_token_ttl t.now t.refresh_made

  unfoldable pub generate_token_pair :
      JwtService → ℤ → Bytes → Bytes → Instants → Outcome AuthError TokenPair
  generate_token_pair j user_id username role t = do
    access ← require (J.sign j.private_key (access_claims j user_id username role t)) signing_failed
    refresh ←
        require (J.sign j.private_key (refresh_claims j user_id username role t)) signing_failed
    ok (record {
      access_token = access;
      refresh_token = refresh;
      token_type = codes "Bearer";
      expires_in = j.access_token_ttl / second;
      expires_at = t.now + j.access_token_ttl;
    })

  unfoldable pub validate_token : JwtService → ℕ → Bytes → Outcome AuthError Claims
  validate_token j now s = do
    c ← require (J.parse (key_for_rsa j) true now s) token_invalid
    done ← validate c
    ok c

  unfoldable pub validate_access_token : JwtService → ℕ → Bytes → Outcome AuthError Claims
  validate_access_token j now s = do
    c ← validate_token j now s
    done ← guard (same_bytes c.token_type (codes "access")) not_access_token
    ok c

  unfoldable pub validate_refresh_token : JwtService → ℕ → Bytes → Outcome AuthError Claims
  validate_refresh_token j now s = do
    c ← validate_token j now s
    done ← guard (same_bytes c.token_type (codes "refresh")) not_refresh_token
    ok c

  unfoldable pub refresh_token_pair : JwtService → Bytes → Instants → Outcome AuthError TokenPair
  refresh_token_pair j s t = do
    c ← validate_refresh_token j t.now s
    generate_token_pair j c.user_id c.username c.role t

  unfoldable pub get_token_claims : JwtService → ℕ → Bytes → Outcome AuthError Claims
  get_token_claims j now s = require (J.parse (any_key j) false now s) parse_failed

  unfoldable pub validate_token_from_request : JwtService → ℕ → Bytes → Outcome AuthError Claims
  validate_token_from_request j now header = do
    s ← extract_token_from_header header
    validate_access_token j now s
