-- ===== src/HealthChecker/Errors.antt =====
-- internal/routing/health_checker.go: `determineErrorStatus` and `categorizeError`, from the text of
-- an error.
use chat2sql.Prelude.{
  ℕ, ◌*◌, Bool, ◌||◌, Bytes, codes, String, contains, Unicode, to_lower, ltb, if◌then◌else◌,
}
use chat2sql.HealthChecker.State.{ModelStatus, degraded, unhealthy, HealthCheckConfig, milliseconds}

abbrev mentions : Bytes → String → Bool
mentions text word = contains (codes word) text

unfoldable pub determine_error_status : Unicode → HealthCheckConfig → Bytes → ℕ → ModelStatus
determine_error_status u c error response_time =
    let text = to_lower u error in
    if mentions text "timeout" || mentions text "deadline exceeded"
    then degraded
    else if mentions text "unauthorized" || mentions text "invalid api key"
    then unhealthy
    else if mentions text "rate limit" || mentions text "too many requests"
    then degraded
    else if mentions text "service unavailable" || mentions text "connection refused"
    then unhealthy
    else if ltb (c.latency_threshold * 2) (milliseconds response_time)
    then degraded
    else unhealthy

unfoldable pub categorize_error : Unicode → Bytes → Bytes
categorize_error u error =
    let text = to_lower u error in
    if mentions text "timeout" || mentions text "deadline"
    then codes "timeout"
    else if mentions text "unauthorized" || mentions text "api key"
    then codes "authentication"
    else if mentions text "rate limit" || mentions text "too many requests"
    then codes "rate_limit"
    else if mentions text "connection"
    then codes "connection"
    else if mentions text "service unavailable"
    then codes "service_unavailable"
    else codes "unknown"
