-- ===== src/HealthChecker/Health.antt =====
-- internal/routing/health_checker.go: `calculateOverallHealth` and `CheckModelHealth`. A check by
-- `CheckModelHealth` has two steps on the map; HealthChecker/Overlap.antt has what comes between them.
use chat2sql.Prelude.{
  ℕ, ◌+◌, ◌-◌, ◌≡◌, ◌≢◌, true, ◌&&◌, List, [], ◌∷◌, Bytes, Unicode, ltb, leb, length, drop,
  if◌then◌else◌, lookup, insert, text_key, arith, ◌↔◌, ◌⊎◌, ◌≤◌, ◌<◌, value_or, none, some,
}
use chat2sql.HealthChecker.State.{
  ModelStatus, healthy, unhealthy, degraded, unknown, HealthCheckConfig, HealthCheckResult,
  HealthHistory, ModelHealth, HealthChecker, Rate, zero_rate, at_least, milliseconds, new_history,
}
use chat2sql.HealthChecker.Check.{Blend, Probe, perform_health_check, update_health_history, slowed}

unfoldable pub successes : List HealthCheckResult → ℕ
successes [] = 0
successes (r ∷ rs) = (if r.success then 1 else 0) + successes rs

-- The last `n` results.
abbrev pub newest : ℕ → List HealthCheckResult → List HealthCheckResult
newest n rs = if ltb n (length rs) then drop (length rs - n) rs else rs

unfoldable pub success_rate : HealthHistory → Rate
success_rate h =
    if ltb 0 h.total_checks
    then record { part = h.total_successes; whole = h.total_checks }
    else zero_rate

unfoldable pub availability : List HealthCheckResult → Rate
unfolding successes
availability rs =
    let recent = newest 10 rs in
    if ltb 0 (length recent)
    then record { part = successes recent; whole = length recent }
    else zero_rate

-- The status by the streaks, and then by the average time.
unfoldable pub streak_status : HealthCheckConfig → HealthHistory → ModelStatus → ModelStatus
unfolding success_rate
streak_status c h s =
    if leb c.failure_threshold h.consecutive_failures
    then unhealthy
    else if leb c.recovery_threshold h.consecutive_successes
        && at_least (success_rate h) c.success_rate_threshold
    then healthy
    else s

unfoldable pub overall_status : HealthCheckConfig → HealthHistory → ModelStatus → ModelStatus
unfolding streak_status
overall_status c h s =
    let status = streak_status c h s in
    if ltb c.latency_threshold (milliseconds h.avg_response_time) then slowed status else status

unfoldable pub calculate_overall_health :
    HealthCheckConfig → HealthHistory → HealthCheckResult → ModelHealth
unfolding overall_status availability success_rate
calculate_overall_health c h latest = record {
  status = overall_status c h latest.status;
  last_check = latest.timestamp;
  response_time = latest.response_time;
  success_rate = success_rate h;
  error_count = h.total_failures;
  total_requests = h.total_checks;
  last_error = latest.error;
  availability = availability h.check_results;
}

-- The first locked section: a model without a history gets an empty one.
unfoldable pub begin_check : Bytes → HealthChecker → HealthChecker
unfolding lookup insert
begin_check name hc = elim (lookup name hc.history) [
  | none ↦ record hc { history = insert name (new_history name) hc.history }
  | some h ↦ hc
]

-- The history of a name in the map.
abbrev pub held : Bytes → HealthChecker → HealthHistory
held name hc = value_or (new_history name) (lookup name hc.history)

-- `updateHealthHistory` on that history.
unfoldable pub record_result : Blend → Bytes → HealthCheckResult → HealthChecker → HealthChecker
record_result blend name r hc = record hc {
  history = insert name (update_health_history blend (held name hc) r) hc.history;
}

-- `took` is how long the whole call took.
unfoldable pub check_model_health :
    Unicode → Blend → Bytes → Probe → ℕ → HealthChecker → HealthChecker × ModelHealth
unfolding begin_check perform_health_check update_health_history record_result
    calculate_overall_health lookup
check_model_health u blend name p took hc =
    let begun = begin_check name hc in
    let r = perform_health_check u begun.config p in
    let done = record_result blend name r begun in
    (
      done,
      record (calculate_overall_health done.config (held name done) r) { response_time = took },
    )

module _ (c : HealthCheckConfig) (h : HealthHistory) where
  streak_status_iff :
      (s : ModelStatus)
      → (streak_status c h s ≡ healthy) ↔ (
          (h.consecutive_failures < c.failure_threshold)
          × ((s ≡ healthy)
              ⊎ ((c.recovery_threshold ≤ h.consecutive_successes)
                  × (at_least (success_rate h) c.success_rate_threshold ≡ true))))
  unfolding streak_status
  streak_status_iff s = ground arith

  slowed-healthy : (s : ModelStatus) → slowed s ≢ healthy
  slowed-healthy healthy = ground arith
  slowed-healthy unhealthy = ground arith
  slowed-healthy degraded = ground arith
  slowed-healthy unknown = ground arith

-- The status is healthy exactly if the run of failures is below its threshold, the average time is
-- within the limit, and either the last check alone was healthy or the run of successes and their
-- share reach their thresholds.
pub overall_status_iff :
    (c : HealthCheckConfig) (h : HealthHistory) (s : ModelStatus)
    → (overall_status c h s ≡ healthy) ↔ (
        (h.consecutive_failures < c.failure_threshold)
        × (milliseconds h.avg_response_time ≤ c.latency_threshold)
        × ((s ≡ healthy)
            ⊎ ((c.recovery_threshold ≤ h.consecutive_successes)
                × (at_least (success_rate h) c.success_rate_threshold ≡ true))))
unfolding overall_status
overall_status_iff c h s =
    ground (arith, streak_status_iff c h s, slowed-healthy c h (streak_status c h s))
