-- ===== src/Auth/Marks.antt =====
-- internal/auth/jwt_service.go: the mark that `RevokeUserTokens` leaves, as `IsUserTokensRevoked` reads it.
use chat2sql.Prelude.{
  ℕ, ◌+◌, ◌/◌, ◌^◌, ◌≤◌, ◌<◌, ◌≡◌, ◌≢◌, refl, sym, ap, ◌∙◌, Bool, true, false, Option, none, some,
  List, [], ◌∷◌, Bytes, ok, err, ltb, length, all, between, ℤ, pos, decimal, decimal_digits,
  length-decimal, parse_int, parse_int-decimal, trim_left, some_subst, Option-cases, inl, inr,
  arith,
}
use chat2sql.Auth.Claims.{second, store_failed}
use chat2sql.Auth.Library.{Jwt, Redis, RedisLaws, millisecond}
use chat2sql.Auth.Tokens.{JwtService, require, require-ok, ◌>>=◌}
use chat2sql.Auth.Users.{
  Scanned, scan_keys, user_revoke_key, is_blank, scan_digits, scan_signed, scan_number,
  revoke_user_tokens, is_user_tokens_revoked,
}

scan_digits-all : (s : Bytes) → all (between b'0' b'9') s ≡ true → scan_digits s ≡ s
unfolding scan_digits
scan_digits-all [] h = refl
scan_digits-all (c ∷ s) h = ground (arith, scan_digits-all s)

trim_left-keeps : (f : ℕ → Bool) (c : ℕ) (s : Bytes) → f c ≡ false → trim_left f (c ∷ s) ≡ c ∷ s
unfolding trim_left
trim_left-keeps f c s kept = rw (trim_left, kept)

-- A text of digits is read as `parse_int` reads it.
scan_number-digits :
    (s : Bytes) → all (between b'0' b'9') s ≡ true → 0 < length s → scan_number s ≡ parse_int s
unfolding scan_number scan_signed
scan_number-digits [] digits h = absurd (omega arith)
scan_number-digits (c ∷ s) digits h =
    ap scan_signed (trim_left-keeps is_blank c s (ground arith)) ∙ unsigned
  where
    unsigned : scan_signed (c ∷ s) ≡ parse_int (c ∷ s)
    unsigned = ground (arith, scan_digits-all (c ∷ s) digits)

scan_number-decimal : (n : ℕ) → n < 2 ^ 63 → scan_number (decimal n) ≡ some (pos n)
scan_number-decimal n fits =
    scan_number-digits (decimal n) (decimal_digits n) (length-decimal n) ∙ parse_int-decimal n fits

module _ (J : Jwt) {R : Redis} (stored : RedisLaws R) (j : JwtService J) where
  -- What the store was asked to keep.
  revoke_user_tokens-set :
      (now : ℕ) (user_id : ℤ) (answers : List (Option Scanned)) (store store' : R.Store)
      → revoke_user_tokens J R j now user_id answers store ≡ some (ok store')
      → R.set (user_revoke_key user_id) (decimal (now / second)) j.refresh_token_ttl now store
        ≡ some store'
  unfolding revoke_user_tokens
  revoke_user_tokens-set now user_id answers store store' revoked =
      elim (Option-cases (scan_keys 0 answers)) [
        | inl waits ↦
            let stays : revoke_user_tokens J R j now user_id answers store ≡ none =
              rw (revoke_user_tokens, waits) in
            grind arith
        | inr (ok n, done) ↦
            let mark =
              R.set (user_revoke_key user_id) (decimal (now / second)) j.refresh_token_ttl now
                store in
            let sets : revoke_user_tokens J R j now user_id answers store
                ≡ some (require mark store_failed) =
              rw (revoke_user_tokens, done) in
            require-ok store_failed mark
              (some_subst (λ o. require mark store_failed ≡ o) (sym sets ∙ revoked) refl)
        | inr (err e, done) ↦
            let fails : revoke_user_tokens J R j now user_id answers store ≡ some (err e) =
              rw (revoke_user_tokens, done) in
            grind arith
      ]

  -- After the tokens of a user have been revoked, and while the mark is kept, a token of the user counts as
  -- revoked exactly when it was issued in an earlier second than the one of the revocation.
  pub is_user_tokens_revoked-revoke_user_tokens :
      (now later : ℕ) (user_id : ℤ) (answers : List (Option Scanned)) (store store' : R.Store)
      (issued_at : ℕ)
      → revoke_user_tokens J R j now user_id answers store ≡ some (ok store')
      → now / second < 2 ^ 63
      → now ≤ later
      → later + millisecond ≤ now + j.refresh_token_ttl
      → R.get (user_revoke_key user_id) later store' ≢ none
      → is_user_tokens_revoked J R later user_id issued_at store'
        ≡ ok (ltb issued_at (now / second))
  unfolding is_user_tokens_revoked
  is_user_tokens_revoked-revoke_user_tokens now later user_id answers store store' issued_at revoked
        fits after kept answers_it =
      elim (Option-cases (R.get (user_revoke_key user_id) later store')) [
        | inl silent ↦ absurd (answers_it silent)
        | inr (answer, found) ↦
            let marked =
              stored.get-set _ _ _ now later store store' answer
                (revoke_user_tokens-set now user_id answers store store' revoked) after kept
                found in
            rw (found, marked, ◌>>=◌, scan_number-decimal (now / second) fits)
      ]
