-- ===== src/Auth/Tests.antt =====
-- internal/auth/jwt_service.go: runs of the model.
use chat2sql.Prelude.{
  ℕ, ◌≡◌, ◌≢◌, ◌*◌, ◌<◌, ◌+◌, refl, true, false, Option, none, some, List, [], ◌∷◌, Bytes, codes,
  ok, err, pos, Dict, decimal, decimal_int, same_bytes, arith, lookup, insert, text_key, parse_int,
  parse_digits, value_from, trim_left, has_prefix,
}
use chat2sql.Auth.Claims.{second, not_refresh_token, scan_failed, header_format, token_empty}
use chat2sql.Auth.Keys.{load_or_generate_keys, generate_keys, default_jwt_config}
use chat2sql.Auth.Tokens.{
  Instants, claims_for, generate_jti, generate_token_pair, validate_access_token,
  validate_refresh_token, refresh_token_pair, access_claims, extract_token_from_header,
  is_token_expiring_soon, get_token_claims,
}
use chat2sql.Auth.RoundTrip.{IsUser, access_token-validates, refresh_token_pair-generates}
use chat2sql.Auth.Revocation.{blacklist_key, blacklist_ttl, revoke_token, is_token_revoked}
use chat2sql.Auth.Blacklist.{is_token_revoked-revoke_token}
use chat2sql.Auth.Users.{
  Scanned, scan_keys, user_revoke_key, scan_number, scan_signed, scan_digits, revoke_user_tokens,
  is_user_tokens_revoked,
}
use chat2sql.Auth.Marks.{is_user_tokens_revoked-revoke_user_tokens}
use chat2sql.Auth.Fixtures.{
  start, ann, manager, ann_access, ann_refresh, library, ann_service, ann_pair, revoked,
}
use chat2sql.Auth.Samples.{sample_laws, sample_redis, sample_redis_laws}

ann-IsUser : IsUser (pos 7) ann
ann-IsUser = record { positive = refl; named = refl }

ann-generated : generate_token_pair library ann_service (pos 7) ann manager start ≡ ok ann_pair
unfolding generate_token_pair ann_access ann_refresh claims_for generate_jti decimal decimal_int
    same_bytes
ann-generated = refl

access_token-validates_example :
    (validate_access_token library ann_service (200 * second) (codes "a")
      ≡ ok (access_claims library ann_service (pos 7) ann manager start))
    × (validate_refresh_token library ann_service (200 * second) (codes "a")
        ≡ err not_refresh_token)
access_token-validates_example =
    access_token-validates (sample_laws ann_access ann_refresh) ann_service refl (pos 7) ann manager
      start ann_pair ann-IsUser ann-generated (200 * second) (omega arith) (omega arith)

abbrev again : Instants
again = record { now = 300 * second; access_made = 300 * second; refresh_made = 300 * second + 1 }

refresh_token_pair-generates_example :
    (refresh_token_pair library ann_service (codes "r") again
      ≡ generate_token_pair library ann_service (pos 7) ann manager again)
    × (300 * second < 3700 * second
        → refresh_token_pair library ann_service (codes "a") again ≡ err not_refresh_token)
refresh_token_pair-generates_example =
    refresh_token_pair-generates (sample_laws ann_access ann_refresh) ann_service refl (pos 7) ann
      manager start ann_pair ann-IsUser ann-generated (300 * second) (omega arith) (300 * second)
      (300 * second + 1) (omega arith)

ann-expires : ann_access.expires_at ≡ some 3700
unfolding ann_access claims_for
ann-expires = refl

ann-signed : library.sign tt ann_access ≡ some (codes "a")
unfolding ann_access claims_for generate_jti decimal decimal_int same_bytes
ann-signed = refl

ann-revoked :
    revoke_token library sample_redis ann_service (200 * second) (codes "a") [] ≡ ok revoked
unfolding revoke_token get_token_claims blacklist_ttl blacklist_key revoked ann_access claims_for
    generate_jti decimal same_bytes insert
ann-revoked = refl

revoked-answers : sample_redis.exists (blacklist_key ann_access.id) (3000 * second) revoked ≢ none
revoked-answers = grind arith

is_token_revoked-revoke_token_example :
    is_token_revoked library sample_redis ann_service (3000 * second) (codes "a") revoked ≡ ok true
is_token_revoked-revoke_token_example =
    is_token_revoked-revoke_token (sample_laws ann_access ann_refresh) sample_redis_laws ann_service
      refl (200 * second) (3000 * second) 3700 ann_access (codes "a") [] revoked ann-signed
      ann-expires ann-revoked (omega arith) (omega arith) revoked-answers

-- One page of keys, and the end of the scan.
abbrev pages : List (Option Scanned)
pages = some (record { keys = 2; cursor = 5 }) ∷ some (record { keys = 1; cursor = 0 }) ∷ []

unfoldable marked : Dict Bytes (Bytes × ℕ)
unfolding user_revoke_key decimal decimal_int
marked = (user_revoke_key (pos 7), (codes "200", 86600 * second)) ∷ []

ann-marked :
    revoke_user_tokens library sample_redis ann_service (200 * second) (pos 7) pages []
    ≡ some (ok marked)
unfolding revoke_user_tokens scan_keys marked user_revoke_key decimal decimal_int insert
ann-marked = refl

marked-answers : sample_redis.get (user_revoke_key (pos 7)) (3000 * second) marked ≢ none
marked-answers = grind arith

is_user_tokens_revoked-revoke_user_tokens_example :
    is_user_tokens_revoked library sample_redis (3000 * second) (pos 7) 100 marked ≡ ok true
is_user_tokens_revoked-revoke_user_tokens_example =
    is_user_tokens_revoked-revoke_user_tokens library sample_redis_laws ann_service (200 * second)
      (3000 * second) (pos 7) pages [] marked 100 ann-marked (omega arith) (omega arith)
      (omega arith) marked-answers

-- A token of the second of the revocation is not revoked, a header gives its token, keys are made when none
-- can be read, and a scan that fails leaves no mark.
program : Unit {0}
unfolding extract_token_from_header has_prefix is_user_tokens_revoked scan_number scan_signed
    scan_digits parse_int parse_digits value_from trim_left default_jwt_config user_revoke_key
    decimal decimal_int lookup same_bytes marked revoke_user_tokens scan_keys load_or_generate_keys
    generate_keys is_token_expiring_soon ann_access claims_for
program =
    let same_second : is_user_tokens_revoked library sample_redis (300 * second) (pos 7) 200 marked
        ≡ ok false =
      refl in
    let other_user : is_user_tokens_revoked library sample_redis (300 * second) (pos 8) 100 marked
        ≡ ok false =
      refl in
    let token : extract_token_from_header (codes "Bearer abc") ≡ ok (codes "abc") = refl in
    let basic : extract_token_from_header (codes "Basic abc") ≡ err header_format = refl in
    let nothing : extract_token_from_header (codes "Bearer ") ≡ err token_empty = refl in
    let made : load_or_generate_keys library (record default_jwt_config { private_key_path = [] })
          (λ s t. none) (some tt)
        ≡ ok (record { private_key = tt; public_key = tt }) =
      refl in
    let lost : revoke_user_tokens library sample_redis ann_service 0 (pos 7) (none ∷ []) []
        ≡ some (err scan_failed) =
      refl in
    let soon : is_token_expiring_soon (3500 * second) ann_access (300 * second) ≡ true = refl in tt
