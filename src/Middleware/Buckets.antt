-- ===== src/Middleware/Buckets.antt =====
-- internal/middleware/middleware.go: the limiter of one key among the requests of all.
use chat2sql.Prelude.{
  ℕ, ◌≡◌, refl, ap, sym, ◌∙◌, Bool, List, [], ◌∷◌, Bytes, same_bytes, lookup-insert, text_key,
  value_or, if◌then◌else◌, if_holds, Bool-cases, inl, inr, same_bytes_iff,
}
use chat2sql.Middleware.Limits.{Limiting, RateLimiter, cleanup, limiter_for, allow, allow_all}

-- The times of the requests of a key, and how they were answered.
abbrev pub times_for : Bytes → List (Bytes × ℕ) → List ℕ
times_for key [] = []
times_for key ((k, now) ∷ requests) =
    let rest = times_for key requests in if same_bytes key k then now ∷ rest else rest

abbrev pub answers_for : Bytes → List (Bytes × Bool) → List Bool
answers_for key [] = []
answers_for key ((k, allowed) ∷ answers) =
    let rest = answers_for key answers in if same_bytes key k then allowed ∷ rest else rest

module _ (L : Limiting) where
  -- One bucket by itself.
  abbrev pub bucket_answers : L.Bucket → List ℕ → List Bool
  bucket_answers b [] = []
  bucket_answers b (now ∷ times) =
      let (allowed, after) = L.allow now b in allowed ∷ bucket_answers after times

  cleanup-limiter_for :
      (rl : RateLimiter L) (now : ℕ) (key : Bytes)
      → limiter_for L (cleanup L rl now) key ≡ limiter_for L rl key
  unfolding cleanup
  cleanup-limiter_for rl now key =
      if_holds (λ c. limiter_for L c key ≡ limiter_for L rl key) _ refl refl

  allow-answer :
      (rl : RateLimiter L) (key : Bytes) (now : ℕ)
      → (allow L rl key now).0 ≡ (L.allow now (limiter_for L rl key)).0
  unfolding allow
  allow-answer rl key now = ap (λ b. (L.allow now b).0) (cleanup-limiter_for rl now key)

  -- Only the bucket of the key changes.
  allow-limiter_for :
      (rl : RateLimiter L) (key : Bytes) (now : ℕ) (k : Bytes)
      → limiter_for L (allow L rl key now).1 k
        ≡ (if same_bytes k key then (L.allow now (limiter_for L rl key)).1 else limiter_for L rl k)
  unfolding allow
  allow-limiter_for rl key now k =
      ap (value_or _) (lookup-insert key k _ (cleanup L rl now).limiters)
      ∙ elim (Bool-cases (same_bytes k key)) [
        | inl hit ↦ rw hit (ap (λ b. (L.allow now b).1) (cleanup-limiter_for rl now key))
        | inr miss ↦ rw miss (cleanup-limiter_for rl now k)
      ]

  -- However the requests of several keys follow each other, those of one key are answered as by a bucket of
  -- their own: a request under one key never spends what another key may.
  pub answers_for-allow_all :
      (rl : RateLimiter L) (key : Bytes) (requests : List (Bytes × ℕ))
      → answers_for key (allow_all L rl requests)
        ≡ bucket_answers (limiter_for L rl key) (times_for key requests)
  answers_for-allow_all rl key [] = refl
  answers_for-allow_all rl key ((k, now) ∷ requests) =
      let after = (allow L rl k now).1 in
      let rest = answers_for-allow_all after key requests in
      elim (Bool-cases (same_bytes key k)) [
        | inl hit ↦
            let own : limiter_for L rl k ≡ limiter_for L rl key =
              ap (limiter_for L rl) (sym ((same_bytes_iff key k).0 hit)) in
            let head = allow-answer rl k now ∙ ap (λ b. (L.allow now b).0) own in
            let spent : limiter_for L after key ≡ (L.allow now (limiter_for L rl key)).1 =
              allow-limiter_for rl k now key ∙ rw hit (ap (λ b. (L.allow now b).1) own) in
            let tail = rest ∙ ap (λ b. bucket_answers b (times_for key requests)) spent in
            rw hit (
              ap (λ x. x ∷ answers_for key (allow_all L after requests)) head
              ∙ ap (λ xs. (L.allow now (limiter_for L rl key)).0 ∷ xs) tail)
        | inr miss ↦
            let kept : limiter_for L after key ≡ limiter_for L rl key =
              allow-limiter_for rl k now key ∙ rw miss refl in
            rw miss (rest ∙ ap (λ b. bucket_answers b (times_for key requests)) kept)
      ]
