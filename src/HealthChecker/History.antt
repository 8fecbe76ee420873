-- ===== src/HealthChecker/History.antt =====
-- internal/routing/health_checker.go, `updateHealthHistory`: a history against the plain list of the
-- results of all its checks, the newest first.
use chat2sql.Prelude.{
  ℕ, zero, suc, ◌+◌, ◌≤◌, ◌<◌, ◌≡◌, refl, ap, ◌∙◌, Bool, not, Bytes, List, [], ◌∷◌, ◌++◌, some,
  length, drop, ltb, if◌then◌else◌, arith, Bool-cases, inl, inr, length-append,
}
use chat2sql.HealthChecker.State.{HealthCheckResult, HealthHistory, new_history}
use chat2sql.HealthChecker.Queries.{latest}
use chat2sql.HealthChecker.Check.{Blend, update_health_history, count_result, newest_100}

abbrev pub Results : Type 0
Results = List HealthCheckResult

-- How many results have a property, and how many of the newest have it without a break.
abbrev pub count : (HealthCheckResult → Bool) → Results → ℕ
count f [] = 0
count f (r ∷ rs) = (if f r then 1 else 0) + count f rs

abbrev pub streak : (HealthCheckResult → Bool) → Results → ℕ
streak f [] = 0
streak f (r ∷ rs) = let rest = streak f rs in if f r then 1 + rest else 0

-- The newest `n` results, the oldest of them first.
unfoldable pub recent : ℕ → Results → Results
recent zero rs = []
recent (suc n) [] = []
recent (suc n) (r ∷ rs) = recent n rs ++ r ∷ []

abbrev pub succeeded : HealthCheckResult → Bool
succeeded r = r.success

abbrev pub failed : HealthCheckResult → Bool
failed r = not r.success

pub record IsRecordOf (rs : Results) (h : HealthHistory) : Type 0 where
  pub results : h.check_results ≡ recent 100 rs
  pub checks : h.total_checks ≡ length rs
  pub all_successes : h.total_successes ≡ count succeeded rs
  pub all_failures : h.total_failures ≡ count failed rs
  pub success_streak : h.consecutive_successes ≡ streak succeeded rs
  pub failure_streak : h.consecutive_failures ≡ streak failed rs

recent-short : (n : ℕ) (rs : Results) → length rs ≤ n → recent (suc n) rs ≡ recent n rs
unfolding recent
recent-short zero [] h = refl
recent-short (suc n) [] h = refl
recent-short zero (r ∷ rs) h = absurd (omega arith)
recent-short (suc n) (r ∷ rs) h = ap (λ xs. xs ++ r ∷ []) (recent-short n rs (omega arith))

length-recent-short : (n : ℕ) (rs : Results) → length rs ≤ n → length (recent n rs) ≡ length rs
unfolding recent
length-recent-short zero [] h = refl
length-recent-short (suc n) [] h = refl
length-recent-short zero (r ∷ rs) h = absurd (omega arith)
length-recent-short (suc n) (r ∷ rs) h =
    omega (arith, length-append (recent n rs) (r ∷ []), length-recent-short n rs (omega arith))

length-recent-long : (n : ℕ) (rs : Results) → n ≤ length rs → length (recent n rs) ≡ n
unfolding recent
length-recent-long zero rs h = refl
length-recent-long (suc n) [] h = absurd (omega arith)
length-recent-long (suc n) (r ∷ rs) h =
    omega (arith, length-append (recent n rs) (r ∷ []), length-recent-long n rs (omega arith))

drop-append : (xs ys : Results) → 0 < length xs → drop 1 (xs ++ ys) ≡ drop 1 xs ++ ys
drop-append [] ys h = absurd (omega arith)
drop-append (x ∷ xs) ys h = refl

-- The oldest of one result more is what the shorter list leaves out.
drop-recent : (n : ℕ) (rs : Results) → n < length rs → drop 1 (recent (suc n) rs) ≡ recent n rs
unfolding recent
drop-recent n [] h = absurd (omega arith)
drop-recent zero (r ∷ rs) h = refl
drop-recent (suc n) (r ∷ rs) h =
    drop-append (recent (suc n) rs) (r ∷ [])
      (omega (arith, length-recent-long (suc n) rs (omega arith)))
    ∙ ap (λ xs. xs ++ r ∷ []) (drop-recent n rs (omega arith))

-- The list of the newest `n + 1`.
abbrev window : ℕ → Results → Results
window n rs = if ltb (suc n) (length rs) then drop 1 rs else rs

window-full : (n : ℕ) (xs : Results) → suc n < length xs → window n xs ≡ drop 1 xs
window-full n xs h = ground arith

window-room : (n : ℕ) (xs : Results) → length xs ≤ suc n → window n xs ≡ xs
window-room n xs h = ground arith

length-longer : (xs : Results) (r : HealthCheckResult) → length (xs ++ r ∷ []) ≡ suc (length xs)
length-longer xs r = omega (arith, length-append xs (r ∷ []))

-- A new result pushes out the oldest of a full list.
window-recent :
    (n : ℕ) (r : HealthCheckResult) (rs : Results)
    → window n (recent (suc n) rs ++ r ∷ []) ≡ recent n rs ++ r ∷ []
window-recent n r rs = elim (Bool-cases (ltb n (length rs))) [
  | inl full ↦
      let long : n < length rs = ground arith in
      let size = length-recent-long (suc n) rs (omega arith) in
      window-full n _ (omega (arith, length-longer (recent (suc n) rs) r, size))
      ∙ (drop-append (recent (suc n) rs) (r ∷ []) (omega (arith, size))
          ∙ ap (λ xs. xs ++ r ∷ []) (drop-recent n rs long))
  | inr room ↦
      let short : length rs ≤ n = ground arith in
      let same = recent-short n rs short in
      let size : length (recent (suc n) rs) ≡ length rs =
        ap length same ∙ length-recent-short n rs short in
      window-room n _ (omega (arith, length-longer (recent (suc n) rs) r, size))
      ∙ ap (λ xs. xs ++ r ∷ []) same
]

newest_100-recent :
    (r : HealthCheckResult) (rs : Results)
    → newest_100 (recent 100 rs ++ r ∷ []) ≡ recent 100 (r ∷ rs)
unfolding recent
newest_100-recent r rs = window-recent 99 r rs

pub new_history-IsRecordOf : (name : Bytes) → IsRecordOf [] (new_history name)
unfolding recent
new_history-IsRecordOf name = record {
  results = refl;
  checks = refl;
  all_successes = refl;
  all_failures = refl;
  success_streak = refl;
  failure_streak = refl;
}

-- A check adds its result to the record: the list keeps the last hundred in
-- order, the totals and the two streaks are those of all results.
pub update_health_history-IsRecordOf :
    (blend : Blend) (rs : Results) (h : HealthHistory) (r : HealthCheckResult)
    → IsRecordOf rs h
    → IsRecordOf (r ∷ rs) (update_health_history blend h r)
unfolding update_health_history count_result
update_health_history-IsRecordOf blend rs h r v = record {
  results = appended ∙ (ap (λ xs. newest_100 (xs ++ r ∷ [])) v.results ∙ newest_100-recent r rs);
  checks = check;
  all_successes = let e = v.all_successes in ground arith;
  all_failures = let e = v.all_failures in ground arith;
  success_streak = let e = v.success_streak in ground arith;
  failure_streak = let e = v.failure_streak in ground arith;
}
  where
    appended :
        (update_health_history blend h r).check_results ≡ newest_100 (h.check_results ++ r ∷ [])
    appended = ground arith

    check : (update_health_history blend h r).total_checks ≡ suc (length rs)
    check = let e = v.checks in ground arith

latest-append : (xs : Results) (r : HealthCheckResult) → latest (xs ++ r ∷ []) ≡ some r
unfolding latest
latest-append [] r = refl
latest-append (x ∷ xs) r = rw (latest-append xs r) refl

-- The last entry of the list is the newest result.
pub latest-IsRecordOf :
    (r : HealthCheckResult) (rs : Results) (h : HealthHistory)
    → IsRecordOf (r ∷ rs) h
    → latest h.check_results ≡ some r
unfolding recent
latest-IsRecordOf r rs h v = ap latest v.results ∙ latest-append (recent 99 rs) r

-- A history has a result exactly if there was one.
pub results-IsRecordOf-nil : (h : HealthHistory) → IsRecordOf [] h → h.check_results ≡ []
unfolding recent
results-IsRecordOf-nil h v = v.results

pub results-IsRecordOf-cons :
    (r : HealthCheckResult) (rs : Results) (h : HealthHistory)
    → IsRecordOf (r ∷ rs) h
    → 0 < length h.check_results
unfolding recent
results-IsRecordOf-cons r rs h v =
    let e = ap length v.results in omega (arith, length-longer (recent 99 rs) r)
