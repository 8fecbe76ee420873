-- ===== src/Auth/Users.antt =====
-- internal/auth/jwt_service.go: `RevokeUserTokens` and `IsUserTokensRevoked`.
use chat2sql.Prelude.{
  ℕ, ◌+◌, ◌/◌, Bool, true, false, ◌&&◌, ◌||◌, not, Option, none, some, List, [], ◌∷◌, ◌++◌, Bytes,
  codes, Outcome, ok, err, if◌then◌else◌, ltb, ◌==◌, is_space, ℤ, pos, negsuc, decimal, decimal_int,
  parse_int, trim_left, between,
}
use chat2sql.Auth.Claims.{AuthError, second, store_failed, scan_failed, bad_revoke_time}
use chat2sql.Auth.Library.{Jwt, Redis}
use chat2sql.Auth.Tokens.{JwtService, require, ◌>>=◌}

-- An answer of SCAN: how many keys, and the next cursor.
pub record Scanned : Type 0 where
  pub keys : ℕ
  pub cursor : ℕ

-- The loop over the answers of SCAN, `none` where one failed. The result is none while it still waits for
-- an answer, and else how many keys there were.
unfoldable pub scan_keys : ℕ → List (Option Scanned) → Option (Outcome AuthError ℕ)
scan_keys count [] = none
scan_keys count (none ∷ answers) = some (err scan_failed)
scan_keys count (some a ∷ answers) = elim (a.cursor == 0) [
  | true ↦ some (ok (count + a.keys))
  | false ↦ scan_keys (count + a.keys) answers
]

unfoldable pub user_revoke_key : ℤ → Bytes
user_revoke_key user_id = codes "jwt:user_revoked:" ++ decimal_int user_id

abbrev pub is_blank : ℕ → Bool
is_blank c = is_space c && not (c == 10)

-- The digits that the text begins with.
unfoldable pub scan_digits : Bytes → Bytes
scan_digits [] = []
scan_digits (c ∷ s) = elim (between b'0' b'9' c) [ true ↦ c ∷ scan_digits s | false ↦ [] ]

-- `%d`: a sign and digits, after blanks
unfoldable pub scan_signed : Bytes → Option ℤ
unfolding scan_digits parse_int
scan_signed [] = none
scan_signed (c ∷ s) =
    if c == b'-' || c == b'+'
    then parse_int (c ∷ scan_digits s)
    else parse_int (scan_digits (c ∷ s))

unfoldable pub scan_number : Bytes → Option ℤ
unfolding scan_signed trim_left
scan_number s = scan_signed (trim_left is_blank s)

module _ (J : Jwt) (R : Redis) where
  -- The scan only counts for the log; the mark holds the second of the call.
  unfoldable pub revoke_user_tokens :
      JwtService J → ℕ → ℤ → List (Option Scanned) → R.Store → Option (Outcome AuthError R.Store)
  revoke_user_tokens j now user_id answers store = elim (scan_keys 0 answers) [
    | none ↦ none
    | some count ↦ some (marked count)
  ]
    where
      marked : Outcome AuthError ℕ → Outcome AuthError R.Store
      marked count = do
        n ← count
        require
            (R.set (user_revoke_key user_id) (decimal (now / second)) j.refresh_token_ttl now store)
            store_failed

  -- Whole seconds on both sides.
  unfoldable pub is_user_tokens_revoked : ℕ → ℤ → ℕ → R.Store → Outcome AuthError Bool
  is_user_tokens_revoked now user_id token_issued_at store = do
    answer ← require (R.get (user_revoke_key user_id) now store) store_failed
    elim answer [
      | none ↦ ok false
      | some text ↦ elim (scan_number text) [
        | none ↦ err bad_revoke_time
        | some (pos revoke_time) ↦ ok (ltb token_issued_at revoke_time)
        | some (negsuc n) ↦ ok false
      ]
    ]
