-- ===== src/HealthChecker/Results.antt =====
-- internal/routing/health_checker.go: what a check reports, from the answer of the API and the
-- results of the earlier checks.
use chat2sql.Prelude.{
  ℕ, suc, ◌≤◌, ◌<◌, ◌≡◌, ◌≢◌, ◌↔◌, ◌⊎◌, inl, inr, true, none, some, ◌∷◌, Bytes, Unicode, length,
  arith, Option-cases, lookup, text_key, value_or, subst, sym, ◌∙◌, ap,
}
use chat2sql.HealthChecker.State.{
  ModelStatus, healthy, unhealthy, degraded, unknown, HealthCheckConfig, HealthCheckResult,
  HealthHistory, ModelHealth, HealthChecker, Rate, at_least, milliseconds, new_history,
}
use chat2sql.HealthChecker.Errors.{determine_error_status}
use chat2sql.HealthChecker.Check.{
  Blend, Probe, first_result, perform_health_check, update_health_history, slowed,
}
use chat2sql.HealthChecker.Health.{
  check_model_health, held, calculate_overall_health, overall_status, overall_status_iff,
  success_rate,
}
use chat2sql.HealthChecker.Begin.{check_model_health_lem}
use chat2sql.HealthChecker.History.{
  Results, count, streak, succeeded, failed, IsRecordOf, update_health_history-IsRecordOf,
}

abbrev IsBad : ModelStatus → Type 0
IsBad s = (s ≢ healthy) × (s ≢ unknown)

determine_error_status-IsBad :
    (u : Unicode) (c : HealthCheckConfig) (text : Bytes) (took : ℕ)
    → IsBad (determine_error_status u c text took)
unfolding determine_error_status
determine_error_status-IsBad u c text took = ground arith

slowed-IsBad : (s : ModelStatus) → s ≢ unknown → IsBad (slowed s)
slowed-IsBad healthy h = ground arith
slowed-IsBad unhealthy h = ground arith
slowed-IsBad degraded h = ground arith
slowed-IsBad unknown h = ground arith

module _ (u : Unicode) (c : HealthCheckConfig) (p : Probe) where
  first_result-known : (first_result u c p).status ≢ unknown
  unfolding first_result
  first_result-known = elim (Option-cases p.error) [
    | inl e ↦ rw (e, first_result) (ground arith)
    | inr (text, e) ↦ rw (e, first_result) (determine_error_status-IsBad u c text p.took).1
  ]

  first_result-fails : (text : Bytes) → p.error ≡ some text → (first_result u c p).status ≢ healthy
  unfolding first_result
  first_result-fails text e = rw (e, first_result) (determine_error_status-IsBad u c text p.took).0

  first_result-works : p.error ≡ none → (first_result u c p).status ≡ healthy
  unfolding first_result
  first_result-works e = ground arith

  first_result-took : (first_result u c p).response_time ≡ p.took
  unfolding first_result
  first_result-took = ground arith

  -- A check by itself is healthy exactly if the API gave no error and was not slow.
  perform_health_check_iff :
      ((perform_health_check u c p).status ≡ healthy)
      ↔ ((p.error ≡ none) × (milliseconds p.took ≤ c.latency_threshold))
  unfolding perform_health_check
  perform_health_check_iff = elim (Option-cases p.error) [
    | inl e ↦ ground (arith, first_result-works e, first_result-took)
    | inr (text, e) ↦ ground (
      arith,
      first_result-fails text e,
      slowed-IsBad (first_result u c p).status first_result-known,
    )
  ]

  pub perform_health_check-known : (perform_health_check u c p).status ≢ unknown
  unfolding perform_health_check
  perform_health_check-known =
      ground (arith, first_result-known, slowed-IsBad (first_result u c p).status)

  pub perform_health_check-success :
      ((perform_health_check u c p).success ≡ true) ↔ (p.error ≡ none)
  unfolding perform_health_check first_result
  perform_health_check-success = ground arith

abbrev rate_of : Results → Rate
rate_of rs = record { part = count succeeded rs; whole = length rs }

success_rate-record :
    (r : HealthCheckResult) (rs : Results) (h : HealthHistory)
    → IsRecordOf (r ∷ rs) h
    → success_rate h ≡ rate_of (r ∷ rs)
unfolding success_rate
success_rate-record r rs h v = let e = v.checks in let f = v.all_successes in ground arith

-- When a status `s` becomes healthy, in the lengths `a` and `b` of the streaks and the rate `q`.
abbrev HealthyIf : HealthCheckConfig → HealthHistory → ModelStatus → ℕ → ℕ → Rate → Type 0
HealthyIf c h s a b q = (overall_status c h s ≡ healthy) ↔ (
    (a < c.failure_threshold)
    × (milliseconds h.avg_response_time ≤ c.latency_threshold)
    × ((s ≡ healthy) ⊎ ((c.recovery_threshold ≤ b) × (at_least q c.success_rate_threshold ≡ true))))

overall_of_record :
    (c : HealthCheckConfig) (s : ModelStatus) (r : HealthCheckResult) (rs : Results)
    (h : HealthHistory)
    → IsRecordOf (r ∷ rs) h
    → HealthyIf c h s (streak failed (r ∷ rs)) (streak succeeded (r ∷ rs)) (rate_of (r ∷ rs))
overall_of_record c s r rs h v =
    subst (λ a. HealthyIf c h s a (streak succeeded (r ∷ rs)) (rate_of (r ∷ rs))) v.failure_streak
      (subst (λ b. HealthyIf c h s h.consecutive_failures b (rate_of (r ∷ rs))) v.success_streak
        (subst (HealthyIf c h s h.consecutive_failures h.consecutive_successes)
          (success_rate-record r rs h v) (overall_status_iff c h s)))

reported_status :
    (u : Unicode) (blend : Blend) (name : Bytes) (p : Probe) (took : ℕ) (hc : HealthChecker)
    → let r = perform_health_check u hc.config p in
      (check_model_health u blend name p took hc).1.status
      ≡ overall_status hc.config (update_health_history blend (held name hc) r) r.status
unfolding calculate_overall_health
reported_status u blend name p took hc =
    ap (λ (out : HealthChecker × ModelHealth). out.1.status)
      (check_model_health_lem u blend name p took hc)

-- What a check reports of a model whose earlier results are `rs`, the newest first: healthy exactly if
-- with this check the run of failures is below its threshold, the average time is within the limit,
-- and either this check gave no error within the limit, or the run of successes and the share of
-- successes among all checks reach their thresholds.
pub check_model_health_iff :
    (u : Unicode) (blend : Blend) (name : Bytes) (p : Probe) (took : ℕ) (hc : HealthChecker)
    (rs : Results)
    → IsRecordOf rs (value_or (new_history name) (lookup name hc.history))
    → let r = perform_health_check u hc.config p in
      let (hc', health) = check_model_health u blend name p took hc in
      let h =
        update_health_history blend (value_or (new_history name) (lookup name hc.history)) r in
      (health.status ≡ healthy) ↔ (
        (streak failed (r ∷ rs) < hc.config.failure_threshold)
        × (milliseconds h.avg_response_time ≤ hc.config.latency_threshold)
        × (((p.error ≡ none) × (milliseconds p.took ≤ hc.config.latency_threshold))
            ⊎ ((hc.config.recovery_threshold ≤ streak succeeded (r ∷ rs))
                × (at_least
                      (record { part = count succeeded (r ∷ rs); whole = suc (length rs) })
                      hc.config.success_rate_threshold
                    ≡ true))))
check_model_health_iff u blend name p took hc rs v =
    let r = perform_health_check u hc.config p in
    let h = value_or (new_history name) (lookup name hc.history) in
    let w = update_health_history-IsRecordOf blend rs h r v in
    let (to, from) = overall_of_record hc.config r.status r rs _ w in
    let (alone, together) = perform_health_check_iff u hc.config p in
    let reports = reported_status u blend name p took hc in
    (
      λ e.
          let (a, b, d) = to (sym reports ∙ e) in
          (a, b, elim d [ inl x ↦ inl (alone x) | inr y ↦ inr y ]),
      λ (a, b, d). reports ∙ from (a, b, elim d [ inl x ↦ inl (together x) | inr y ↦ inr y ]),
    )

-- One quick success makes a model healthy, however many failures in a row came before and whatever
-- the recovery threshold, if the failure threshold is positive and the average time is within the
-- limit.
pub check_model_health_recovers :
    (u : Unicode) (blend : Blend) (name : Bytes) (p : Probe) (took : ℕ) (hc : HealthChecker)
    (rs : Results)
    → IsRecordOf rs (value_or (new_history name) (lookup name hc.history))
    → p.error ≡ none
    → milliseconds p.took ≤ hc.config.latency_threshold
    → 0 < hc.config.failure_threshold
    → let h = value_or (new_history name) (lookup name hc.history) in
      milliseconds
          (update_health_history blend h (perform_health_check u hc.config p)).avg_response_time
        ≤ hc.config.latency_threshold
      → (check_model_health u blend name p took hc).1.status ≡ healthy
check_model_health_recovers u blend name p took hc rs v e quick positive average =
    (check_model_health_iff u blend name p took hc rs v).1 (streak_low, average, inl (e, quick))
  where
    r : HealthCheckResult
    r = perform_health_check u hc.config p

    streak_low : streak failed (r ∷ rs) < hc.config.failure_threshold
    streak_low = let s = (perform_health_check-success u hc.config p).1 e in ground arith
