-- ===== src/HealthChecker/Tests.antt =====
-- Runs of internal/routing/health_checker.go.
use chat2sql.Prelude.{
  ◌≡◌, ◌↔◌, ◌⊎◌, ◌≤◌, ◌<◌, ◌+◌, ◌*◌, ◌/◌, ℕ, suc, refl, true, false, none, some, List, [], ◌∷◌,
  Bytes, codes, Unicode, lookup, insert, keep, same_bytes, contains, has_prefix, index, to_lower,
  length, value_or, arith, text_key,
}
use chat2sql.HealthChecker.State.{
  healthy, unhealthy, HealthChecker, HealthHistory, HealthCheckResult, new_health_checker,
  new_history, at_least, milliseconds,
}
use chat2sql.HealthChecker.Errors.{determine_error_status, categorize_error}
use chat2sql.HealthChecker.Check.{
  Blend, Probe, first_result, perform_health_check, update_avg_response_time, update_health_history,
  count_result,
}
use chat2sql.HealthChecker.Health.{
  begin_check, record_result, check_model_health, calculate_overall_health, overall_status,
  streak_status, success_rate, availability, successes,
}
use chat2sql.HealthChecker.History.{
  Results, IsRecordOf, new_history-IsRecordOf, update_health_history-IsRecordOf, streak, count,
  failed, succeeded,
}
use chat2sql.HealthChecker.Queries.{
  get_health_metrics, get_all_health_status, sum_models, add_model, current_health, latest,
  count_status, all_status,
}
use chat2sql.HealthChecker.Results.{check_model_health_iff, check_model_health_recovers}
use chat2sql.HealthChecker.Runs.{
  Call, checks, run, step, AllChecked, run-AllChecked, recorded_before,
}
use chat2sql.HealthChecker.Metrics.{
  get_health_metrics_totals, all_checks, all_failures, all_without_result,
}
use chat2sql.HealthChecker.Overlap.{Event, begins, finishes, happen_all, happen, finish_check}

abbrev ascii_only : Unicode
ascii_only = record {
  upper = λ s. s;
  lower = λ s. s;
  trim_spaces = λ s. s;
  split_fields = λ s. s ∷ [];
  folds_equal = λ s t. false;
  unprintable = λ s. false;
}

-- The average in exact arithmetic.
abbrev blend : Blend
blend a b = (7 * a + 3 * b) / 10

abbrev answers : Probe
answers = record { began = 5; took = 1_000_000; error = none }

abbrev refuses : Probe
refuses = record { began = 7; took = 2_000_000; error = some (codes "Connection refused") }

abbrev model : Bytes
model = codes "gpt"

program : Unit {0}
unfolding lookup insert keep same_bytes contains has_prefix index to_lower determine_error_status
    categorize_error first_result perform_health_check update_avg_response_time
    update_health_history count_result begin_check record_result finish_check happen happen_all
    check_model_health calculate_overall_health overall_status streak_status success_rate
    availability successes run step get_health_metrics sum_models add_model current_health latest
    count_status all_status get_all_health_status
program = tt

abbrev failing : List Call
failing =
    checks model refuses 2_000_000
    ∷ checks model refuses 2_000_000
    ∷ checks model refuses 2_000_000
    ∷ []

abbrev failed_thrice : HealthChecker
failed_thrice = run ascii_only blend new_health_checker failing

statuses :
    ((check_model_health ascii_only blend model answers 1 new_health_checker).1.status ≡ healthy)
    × ((check_model_health ascii_only blend model refuses 1 failed_thrice).1.status ≡ unhealthy)
    × ((check_model_health ascii_only blend model answers 1 failed_thrice).1.status ≡ healthy)
    × ((get_health_metrics failed_thrice).unhealthy_count ≡ 1)
    × ((get_health_metrics failed_thrice).total_failures ≡ 3)
unfolding program
statuses = (refl, refl, refl, refl, refl)

abbrev before : HealthHistory
before = value_or (new_history model) (lookup model failed_thrice.history)

abbrev earlier : (rs : Results) × IsRecordOf rs before
earlier = recorded_before model failed_thrice (run-AllChecked ascii_only blend failing)

abbrev next : HealthCheckResult
next = perform_health_check ascii_only failed_thrice.config answers

run-AllChecked_example : AllChecked (run ascii_only blend new_health_checker failing).history
run-AllChecked_example = run-AllChecked ascii_only blend failing

update_health_history-IsRecordOf_example :
    IsRecordOf (next ∷ []) (update_health_history blend (new_history model) next)
update_health_history-IsRecordOf_example =
    update_health_history-IsRecordOf blend [] (new_history model) next
      (new_history-IsRecordOf model)

abbrev averaged : ℕ
averaged =
    (update_health_history blend before
      (perform_health_check ascii_only failed_thrice.config answers)).avg_response_time

check_model_health_iff_example :
    ((check_model_health ascii_only blend model answers 1 failed_thrice).1.status ≡ healthy) ↔ (
      (streak failed (next ∷ earlier.0) < failed_thrice.config.failure_threshold)
      × (milliseconds averaged ≤ failed_thrice.config.latency_threshold)
      × (((answers.error ≡ none)
            × (milliseconds answers.took ≤ failed_thrice.config.latency_threshold))
          ⊎ ((failed_thrice.config.recovery_threshold ≤ streak succeeded (next ∷ earlier.0))
              × (at_least
                    (record {
                      part = count succeeded (next ∷ earlier.0);
                      whole = suc (length earlier.0);
                    })
                    failed_thrice.config.success_rate_threshold
                  ≡ true))))
check_model_health_iff_example =
    check_model_health_iff ascii_only blend model answers 1 failed_thrice earlier.0 earlier.1

thresholds :
    (milliseconds answers.took ≤ failed_thrice.config.latency_threshold)
    × (0 < failed_thrice.config.failure_threshold)
    × (milliseconds averaged ≤ failed_thrice.config.latency_threshold)
unfolding program
thresholds = (omega arith, omega arith, omega arith)

check_model_health_recovers_example :
    (check_model_health ascii_only blend model answers 1 failed_thrice).1.status ≡ healthy
check_model_health_recovers_example =
    check_model_health_recovers ascii_only blend model answers 1 failed_thrice earlier.0 earlier.1
      refl thresholds.0 thresholds.1 thresholds.2

-- Two first checks under way, of which one fails.
abbrev under_way : List Event
under_way =
    begins model ∷ begins (codes "claude") ∷ finishes model new_health_checker.config refuses ∷ []

abbrev overlapping : HealthChecker
overlapping = happen_all ascii_only blend new_health_checker under_way

sums_under_way :
    ((get_health_metrics overlapping).total_models ≡ 2)
    × ((get_health_metrics overlapping).total_checks ≡ 1)
    × (all_without_result overlapping.history ≡ 1)
unfolding program all_without_result
sums_under_way = (refl, refl, refl)

get_health_metrics_totals_example :
    let m = get_health_metrics overlapping in
    (m.healthy_count + m.degraded_count + m.unhealthy_count + all_without_result overlapping.history
      ≡ m.total_models)
    × (m.total_models ≡ length overlapping.history)
    × (m.total_checks ≡ all_checks overlapping.history)
    × (m.total_failures ≡ all_failures overlapping.history)
    × (m.total_failures ≤ m.total_checks)
get_health_metrics_totals_example = get_health_metrics_totals ascii_only blend under_way
