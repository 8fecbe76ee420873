-- ===== src/HealthChecker/Check.antt =====
-- internal/routing/health_checker.go: `performHealthCheck` and `updateHealthHistory`. The answer of a
-- model's API, and the time that it took, are parameters; `blend` is the moving average of two
-- durations, computed on floats.
use chat2sql.Prelude.{
  ℕ, ◌+◌, true, false, Option, none, some, List, [], ◌∷◌, ◌++◌, Bytes, Unicode, ltb, ◌==◌, length,
  drop, if◌then◌else◌,
}
use chat2sql.HealthChecker.State.{
  ModelStatus, healthy, degraded, HealthCheckConfig, HealthCheckResult, HealthHistory, milliseconds,
}
use chat2sql.HealthChecker.Errors.{determine_error_status, categorize_error}

-- One call of the API: when it began, how long it took, and the error's text if there was one.
pub record Probe : Type 0 where
  pub began : ℕ
  pub took : ℕ
  pub error : Option Bytes

unfoldable pub first_result : Unicode → HealthCheckConfig → Probe → HealthCheckResult
first_result u c p = elim p.error [
  | some text ↦ record {
    timestamp = p.began;
    status = determine_error_status u c text p.took;
    response_time = p.took;
    success = false;
    error = text;
    details = record {
      error_type = some (categorize_error u text);
      test_successful = false;
      latency_exceeded = false;
    };
  }
  | none ↦ record {
    timestamp = p.began;
    status = healthy;
    response_time = p.took;
    success = true;
    error = [];
    details = record { error_type = none; test_successful = true; latency_exceeded = false };
  }
]

abbrev pub slowed : ModelStatus → ModelStatus
slowed healthy = degraded
slowed s = s

unfoldable pub perform_health_check : Unicode → HealthCheckConfig → Probe → HealthCheckResult
perform_health_check u c p =
    let r = first_result u c p in
    if ltb c.latency_threshold (milliseconds r.response_time)
    then record r {
      status = slowed r.status;
      details = record (r.details) { latency_exceeded = true };
    }
    else r

abbrev pub Blend : Type 0
Blend = ℕ → ℕ → ℕ

unfoldable pub update_avg_response_time : Blend → ℕ → ℕ → ℕ
update_avg_response_time blend avg response_time =
    if avg == 0 then response_time else blend avg response_time

abbrev pub newest_100 : List HealthCheckResult → List HealthCheckResult
newest_100 rs = if ltb 100 (length rs) then drop 1 rs else rs

unfoldable pub count_result : HealthHistory → HealthCheckResult → HealthHistory
count_result h r =
    if r.success
    then record h {
      total_successes = h.total_successes + 1;
      consecutive_successes = h.consecutive_successes + 1;
      consecutive_failures = 0;
      last_healthy_time = some r.timestamp;
    }
    else record h {
      total_failures = h.total_failures + 1;
      consecutive_failures = h.consecutive_failures + 1;
      consecutive_successes = 0;
      last_unhealthy_time = some r.timestamp;
    }

unfoldable pub update_health_history : Blend → HealthHistory → HealthCheckResult → HealthHistory
unfolding count_result
update_health_history blend h r =
    let appended = record h {
      check_results = newest_100 (h.check_results ++ r ∷ []);
      total_checks = h.total_checks + 1;
    } in
    let counted = count_result appended r in
    record counted {
      avg_response_time = update_avg_response_time blend counted.avg_response_time r.response_time;
    }
