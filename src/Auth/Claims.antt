-- ===== src/Auth/Claims.antt =====
-- internal/auth/jwt_service.go: the claims of a token and `Validate`. Times are whole nanoseconds; a
-- time in a claim is whole seconds, as the library writes it.
use chat2sql.Prelude.{
  ℕ, ◌/◌, Bool, not, ◌||◌, Option, List, Bytes, codes, same_bytes, Outcome, ok, err, ℤ, is_positive,
  if◌then◌else◌, is_empty,
}

pub record Claims : Type 0 where
  pub user_id : ℤ
  pub username : Bytes
  pub role : Bytes
  pub token_type : Bytes
  pub issuer : Bytes
  pub subject : Bytes
  pub audience : List Bytes
  pub expires_at : Option ℕ
  pub not_before : Option ℕ
  pub issued_at : Option ℕ
  pub id : Bytes

pub data AuthError : Type 0 where
  invalid_user_id empty_username invalid_token_type : AuthError
  header_empty header_format token_empty : AuthError
  token_invalid not_access_token not_refresh_token : AuthError
  signing_failed parse_failed store_failed no_keys keys_failed : AuthError
  scan_failed bad_revoke_time : AuthError

abbrev pub second : ℕ
second = 1_000_000_000

-- `jwt.NewNumericDate`
abbrev pub numeric_date : ℕ → ℕ
numeric_date t = t / second

unfoldable pub is_known_type : Bytes → Bool
unfolding same_bytes
is_known_type t = same_bytes t (codes "access") || same_bytes t (codes "refresh")

unfoldable pub validate : Claims → Outcome AuthError (Unit {0})
unfolding is_known_type
validate c =
    if not (is_positive c.user_id)
    then err invalid_user_id
    else if is_empty c.username
    then err empty_username
    else if not (is_known_type c.token_type)
    then err invalid_token_type
    else ok tt
