-- ===== src/HealthChecker/Metrics.antt =====
-- internal/routing/health_checker.go: what `GetHealthMetrics` and `GetAllHealthStatus` report after any
-- calls.
use chat2sql.Prelude.{
  ℕ, ◌+◌, ◌≤◌, ◌≡◌, ◌≢◌, refl, ap, List, [], ◌∷◌, Bytes, Unicode, Dict, some, length, map, arith,
  ltb, if◌then◌else◌,
}
use chat2sql.HealthChecker.State.{
  ModelStatus, healthy, unhealthy, degraded, unknown, HealthCheckConfig, HealthHistory, ModelHealth,
  new_health_checker,
}
use chat2sql.HealthChecker.Check.{Blend, slowed}
use chat2sql.HealthChecker.Health.{overall_status, streak_status, calculate_overall_health}
use chat2sql.HealthChecker.History.{
  Results, count, failed, latest-IsRecordOf, results-IsRecordOf-nil, results-IsRecordOf-cons,
}
use chat2sql.HealthChecker.Entries.{AllAre}
use chat2sql.HealthChecker.Overlap.{
  Event, happen_all, IsHistory, unused, used, happen_all-AllHistories,
}
use chat2sql.HealthChecker.Queries.{
  Sums, no_sums, latest, count_status, add_model, sum_models, current_health, get_health_metrics,
  all_status, get_all_health_status,
}
use chat2sql.HealthChecker.Runs.{Call, run, IsChecked, AllChecked, run-AllChecked}

slowed-known : (s : ModelStatus) → s ≢ unknown → slowed s ≢ unknown
slowed-known healthy h = ground arith
slowed-known unhealthy h = ground arith
slowed-known degraded h = ground arith
slowed-known unknown h = ground arith

streak_status-known :
    (c : HealthCheckConfig) (h : HealthHistory) (s : ModelStatus)
    → s ≢ unknown
    → streak_status c h s ≢ unknown
unfolding streak_status
streak_status-known c h s k = ground arith

overall_status-known :
    (c : HealthCheckConfig) (h : HealthHistory) (s : ModelStatus)
    → s ≢ unknown
    → overall_status c h s ≢ unknown
unfolding overall_status
overall_status-known c h s k =
    let known = streak_status-known c h s k in
    ground (arith, slowed-known (streak_status c h s) known)

total : Sums → ℕ
total s = s.healthy_count + s.degraded_count + s.unhealthy_count

count_status-total :
    (t : ModelStatus) (s : Sums) → t ≢ unknown → total (count_status t s) ≡ total s + 1
unfolding count_status total
count_status-total healthy s k = omega arith
count_status-total degraded s k = omega arith
count_status-total unhealthy s k = omega arith
count_status-total unknown s k = absurd (k refl)

count_status-rest :
    (t : ModelStatus) (s : Sums)
    → ((count_status t s).checks ≡ s.checks) × ((count_status t s).failures ≡ s.failures)
unfolding count_status
count_status-rest healthy s = (refl, refl)
count_status-rest degraded s = (refl, refl)
count_status-rest unhealthy s = (refl, refl)
count_status-rest unknown s = (refl, refl)

count-le : (rs : Results) → count failed rs ≤ length rs
count-le [] = omega arith
count-le (r ∷ rs) = ground (arith, count-le rs)

module _ (c : HealthCheckConfig) (h : HealthHistory) (v : IsChecked h) where
  current_health-checked : current_health c h ≡ some (calculate_overall_health c h v.last)
  unfolding current_health
  current_health-checked = rw (latest-IsRecordOf v.last v.earlier h v.recorded, current_health) refl

  status-known : (calculate_overall_health c h v.last).status ≢ unknown
  unfolding calculate_overall_health
  status-known = overall_status-known c h v.last.status v.known

  failures-le : h.total_failures ≤ h.total_checks
  failures-le =
      let e = v.recorded.checks in
      let f = v.recorded.all_failures in omega (arith, count-le (v.last ∷ v.earlier))

  add_model-checked :
      (s : Sums)
      → (total (add_model c h s) ≡ total s + 1)
        × ((add_model c h s).checks ≡ s.checks + h.total_checks)
        × ((add_model c h s).failures ≡ s.failures + h.total_failures)
  unfolding add_model total
  add_model-checked s =
      let t = (calculate_overall_health c h v.last).status in
      let (checks, failures) = count_status-rest t s in
      rw (current_health-checked, add_model)
        (
          count_status-total t s status-known,
          ap (λ n. n + h.total_checks) checks,
          ap (λ n. n + h.total_failures) failures,
        )

-- 1 for a history that has no result yet.
abbrev pub without_result : HealthHistory → ℕ
without_result h = if ltb 0 (length h.check_results) then 0 else 1

-- One step of the sums, for any history.
abbrev Adds : HealthCheckConfig → HealthHistory → Sums → Type 0
Adds c h s =
    (total (add_model c h s) + without_result h ≡ total s + 1)
    × ((add_model c h s).checks ≡ s.checks + h.total_checks)
    × ((add_model c h s).failures ≡ s.failures + h.total_failures)
    × (h.total_failures ≤ h.total_checks)

add_model-unused :
    (c : HealthCheckConfig) (h : HealthHistory) (s : Sums)
    → h.check_results ≡ []
    → add_model c h s ≡ s
unfolding add_model current_health latest
add_model-unused c h s e = rw (e, add_model) refl

add_model-Adds : (c : HealthCheckConfig) (h : HealthHistory) (s : Sums) → IsHistory h → Adds c h s
add_model-Adds c h s (unused v) =
    let e = results-IsRecordOf-nil h v in
    let n = v.checks in
    let m = v.all_failures in
    rw (add_model-unused c h s e, e) (omega arith, omega arith, omega arith, omega arith)
add_model-Adds c h s (used v) =
    let (a, b, d) = add_model-checked c h v s in
    let some_results = results-IsRecordOf-cons v.last v.earlier h v.recorded in
    (ground arith, b, d, failures-le c h v)

-- The checks and the failures of all models.
pub all_checks : Dict Bytes HealthHistory → ℕ
all_checks [] = 0
all_checks ((name, h) ∷ hs) = h.total_checks + all_checks hs

pub all_failures : Dict Bytes HealthHistory → ℕ
all_failures [] = 0
all_failures ((name, h) ∷ hs) = h.total_failures + all_failures hs

-- How many of the models have no result yet.
unfoldable pub all_without_result : Dict Bytes HealthHistory → ℕ
all_without_result [] = 0
all_without_result ((name, h) ∷ hs) = without_result h + all_without_result hs

sum_models-all :
    (c : HealthCheckConfig) (hs : Dict Bytes HealthHistory) (s : Sums)
    → AllAre IsHistory hs
    → (total (sum_models c hs s) + all_without_result hs ≡ total s + length hs)
      × ((sum_models c hs s).checks ≡ s.checks + all_checks hs)
      × ((sum_models c hs s).failures ≡ s.failures + all_failures hs)
      × (all_failures hs ≤ all_checks hs)
unfolding sum_models all_checks all_failures all_without_result
sum_models-all c [] s vs = (omega arith, omega arith, omega arith, omega arith)
sum_models-all c ((name, h) ∷ hs) s (v, vs) =
    let (a, b, d, e) = add_model-Adds c h s v in
    let (f, g, i, k) = sum_models-all c hs (add_model c h s) vs in
    (omega arith, omega arith, omega arith, omega arith)

-- After any events on a new checker, checks that overlap included, the metrics add up: each model that has
-- a result is counted under one of the three statuses, the checks and failures are those of all models,
-- and the failures are no more than the checks.
pub get_health_metrics_totals :
    (u : Unicode) (blend : Blend) (events : List Event)
    → let hc = happen_all u blend new_health_checker events in
      let m = get_health_metrics hc in
      (m.healthy_count + m.degraded_count + m.unhealthy_count + all_without_result hc.history
        ≡ m.total_models)
      × (m.total_models ≡ length hc.history)
      × (m.total_checks ≡ all_checks hc.history)
      × (m.total_failures ≡ all_failures hc.history)
      × (m.total_failures ≤ m.total_checks)
unfolding get_health_metrics total
get_health_metrics_totals u blend events =
    let hc = happen_all u blend new_health_checker events in
    let vs = happen_all-AllHistories u blend events in
    let (a, b, d, e) = sum_models-all hc.config hc.history no_sums vs in
    (omega arith, refl, omega arith, omega arith, omega arith)

names-checked :
    (c : HealthCheckConfig) (hs : Dict Bytes HealthHistory)
    → AllChecked hs
    → map (λ (e : Bytes × ModelHealth). e.0) (all_status c hs)
      ≡ map (λ (e : Bytes × HealthHistory). e.0) hs
unfolding all_status
names-checked c [] vs = refl
names-checked c ((name, h) ∷ hs) (v, vs) =
    rw (current_health-checked c h v, all_status) (ap (λ ns. name ∷ ns) (names-checked c hs vs))

-- After any sequence of calls on a new checker, the summary of all models has one entry for each model
-- with a history.
get_all_health_status_names :
    (u : Unicode) (blend : Blend) (calls : List Call)
    → let hc = run u blend new_health_checker calls in
      map (λ (e : Bytes × ModelHealth). e.0) (get_all_health_status hc)
      ≡ map (λ (e : Bytes × HealthHistory). e.0) hc.history
unfolding get_all_health_status
get_all_health_status_names u blend calls =
    let hc = run u blend new_health_checker calls in
    names-checked hc.config hc.history (run-AllChecked u blend calls)
