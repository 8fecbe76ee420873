-- ===== src/HealthChecker/Queries.antt =====
-- internal/routing/health_checker.go: `GetModelHealthHistory`, `GetAllHealthStatus`,
-- `GetHealthMetrics`, `UpdateConfig`, `ClearHistory` and `ClearAllHistory`. The loops over the map
-- take its entries in the order of the list.
use chat2sql.Prelude.{
  ℕ, ◌+◌, ◌-◌, ◌/◌, Option, none, some, List, [], ◌∷◌, Bytes, ltb, length, if◌then◌else◌, Dict,
  lookup, delete, text_key, or_else,
}
use chat2sql.HealthChecker.State.{
  ModelStatus, healthy, unhealthy, degraded, unknown, HealthCheckConfig, HealthCheckResult,
  HealthHistory, ModelHealth, HealthChecker, Rate, zero_rate,
}
use chat2sql.HealthChecker.Health.{calculate_overall_health}

-- `none` is the error for a model without a history.
unfoldable pub get_model_health_history : Bytes → HealthChecker → Option HealthHistory
unfolding lookup
get_model_health_history name hc = lookup name hc.history

unfoldable pub latest : List HealthCheckResult → Option HealthCheckResult
latest [] = none
latest (r ∷ rs) = or_else (latest rs) (some r)

unfoldable pub current_health : HealthCheckConfig → HealthHistory → Option ModelHealth
unfolding latest calculate_overall_health
current_health c h = elim (latest h.check_results) [
  | none ↦ none
  | some r ↦ some (calculate_overall_health c h r)
]

unfoldable pub all_status : HealthCheckConfig → Dict Bytes HealthHistory → Dict Bytes ModelHealth
unfolding current_health
all_status c [] = []
all_status c ((name, h) ∷ hs) = elim (current_health c h) [
  | none ↦ all_status c hs
  | some health ↦ (name, health) ∷ all_status c hs
]

unfoldable pub get_all_health_status : HealthChecker → Dict Bytes ModelHealth
unfolding all_status
get_all_health_status hc = all_status hc.config hc.history

pub record HealthMetrics : Type 0 where
  pub total_models : ℕ
  pub healthy_count : ℕ
  pub degraded_count : ℕ
  pub unhealthy_count : ℕ
  pub avg_response_time : ℕ
  pub total_checks : ℕ
  pub total_failures : ℕ
  pub overall_success_rate : Rate

-- The loop's variables.
pub record Sums : Type 0 where
  pub healthy_count : ℕ
  pub degraded_count : ℕ
  pub unhealthy_count : ℕ
  pub response_time : ℕ
  pub checks : ℕ
  pub failures : ℕ

abbrev pub no_sums : Sums
no_sums = record {
  healthy_count = 0;
  degraded_count = 0;
  unhealthy_count = 0;
  response_time = 0;
  checks = 0;
  failures = 0;
}

unfoldable pub count_status : ModelStatus → Sums → Sums
count_status healthy s = record s { healthy_count = s.healthy_count + 1 }
count_status degraded s = record s { degraded_count = s.degraded_count + 1 }
count_status unhealthy s = record s { unhealthy_count = s.unhealthy_count + 1 }
count_status unknown s = s

unfoldable pub add_model : HealthCheckConfig → HealthHistory → Sums → Sums
unfolding current_health count_status
add_model c h s = elim (current_health c h) [
  | none ↦ s
  | some health ↦
      let counted = count_status health.status s in
      record counted {
        response_time = counted.response_time + h.avg_response_time;
        checks = counted.checks + h.total_checks;
        failures = counted.failures + h.total_failures;
      }
]

unfoldable pub sum_models : HealthCheckConfig → Dict Bytes HealthHistory → Sums → Sums
unfolding add_model
sum_models c [] s = s
sum_models c ((name, h) ∷ hs) s = sum_models c hs (add_model c h s)

unfoldable pub get_health_metrics : HealthChecker → HealthMetrics
unfolding sum_models
get_health_metrics hc =
    let models = length hc.history in
    let s = sum_models hc.config hc.history no_sums in
    record {
      total_models = models;
      healthy_count = s.healthy_count;
      degraded_count = s.degraded_count;
      unhealthy_count = s.unhealthy_count;
      avg_response_time = if ltb 0 models then s.response_time / models else 0;
      total_checks = s.checks;
      total_failures = s.failures;
      overall_success_rate =
          if ltb 0 s.checks
          then record { part = s.checks - s.failures; whole = s.checks }
          else zero_rate;
    }

unfoldable pub update_config : HealthCheckConfig → HealthChecker → HealthChecker
update_config c hc = record hc { config = c }

unfoldable pub clear_history : Bytes → HealthChecker → HealthChecker
clear_history name hc = record hc { history = delete name hc.history }

unfoldable pub clear_all_history : HealthChecker → HealthChecker
clear_all_history hc = record hc { history = [] }
