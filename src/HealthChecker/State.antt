-- ===== src/HealthChecker/State.antt =====
-- internal/routing/health_checker.go: the checker's state, and the types that it shares with
-- internal/routing/model_registry.go. Times and durations are whole nanoseconds, thresholds are not
-- negative and counters do not reach 2 ^ 63. A quotient of two counters is kept as a fraction and
-- compared exactly; with counters below 2 ^ 50 the comparison of the rounded quotient with a threshold
-- of few decimals has the same outcome.
use chat2sql.Prelude.{ℕ, ◌*◌, ◌/◌, Bool, Option, none, List, [], Bytes, codes, Dict, leb}

pub data ModelStatus : Type 0 where
  healthy unhealthy degraded unknown : ModelStatus

pub record Rate : Type 0 where
  pub part : ℕ
  pub whole : ℕ

abbrev pub zero_rate : Rate
zero_rate = record { part = 0; whole = 1 }

-- `a >= b` for rates with a positive whole.
abbrev pub at_least : Rate → Rate → Bool
at_least a b = leb (b.part * a.whole) (a.part * b.whole)

pub record HealthCheckConfig : Type 0 where
  pub interval : ℕ
  pub timeout : ℕ
  pub max_retries : ℕ
  pub failure_threshold : ℕ
  pub recovery_threshold : ℕ
  pub latency_threshold : ℕ
  pub success_rate_threshold : Rate
  pub test_prompt : Bytes

abbrev second : ℕ
second = 1_000_000_000

-- `DefaultHealthCheckConfig`
abbrev pub default_config : HealthCheckConfig
default_config = record {
  interval = 30 * second;
  timeout = 15 * second;
  max_retries = 3;
  failure_threshold = 3;
  recovery_threshold = 2;
  latency_threshold = 5000;
  success_rate_threshold = record { part = 4; whole = 5 };
  test_prompt = codes "SELECT 1";
}

-- The keys that `Details` may hold.
pub record Details : Type 0 where
  pub error_type : Option Bytes
  pub test_successful : Bool
  pub latency_exceeded : Bool

-- An empty `error` is none.
pub record HealthCheckResult : Type 0 where
  pub timestamp : ℕ
  pub status : ModelStatus
  pub response_time : ℕ
  pub success : Bool
  pub error : Bytes
  pub details : Details

pub record HealthHistory : Type 0 where
  pub model_name : Bytes
  pub check_results : List HealthCheckResult
  pub consecutive_failures : ℕ
  pub consecutive_successes : ℕ
  pub last_healthy_time : Option ℕ
  pub last_unhealthy_time : Option ℕ
  pub total_checks : ℕ
  pub total_successes : ℕ
  pub total_failures : ℕ
  pub avg_response_time : ℕ

abbrev pub new_history : Bytes → HealthHistory
new_history name = record {
  model_name = name;
  check_results = [];
  consecutive_failures = 0;
  consecutive_successes = 0;
  last_healthy_time = none;
  last_unhealthy_time = none;
  total_checks = 0;
  total_successes = 0;
  total_failures = 0;
  avg_response_time = 0;
}

pub record ModelHealth : Type 0 where
  pub status : ModelStatus
  pub last_check : ℕ
  pub response_time : ℕ
  pub success_rate : Rate
  pub error_count : ℕ
  pub total_requests : ℕ
  pub last_error : Bytes
  pub availability : Rate

pub record HealthChecker : Type 0 where
  pub config : HealthCheckConfig
  pub history : Dict Bytes HealthHistory

-- `NewHealthChecker`
abbrev pub new_health_checker : HealthChecker
new_health_checker = record { config = default_config; history = [] }

-- `Duration.Milliseconds`
abbrev pub milliseconds : ℕ → ℕ
milliseconds d = d / 1_000_000
