-- ===== src/HealthChecker/Begin.antt =====
-- internal/routing/health_checker.go: the two steps of `CheckModelHealth` on the map, without a call
-- between them.
use chat2sql.Prelude.{
  ℕ, ◌≡◌, Bytes, Unicode, Dict, refl, ap, sym, ◌∙◌, none, some, inl, inr, Option-cases, lookup,
  insert, text_key, value_or, lookup-insert_self, insert-insert,
}
use chat2sql.HealthChecker.State.{
  HealthCheckConfig, HealthCheckResult, HealthHistory, ModelHealth, HealthChecker, new_history,
}
use chat2sql.HealthChecker.Check.{Blend, Probe, perform_health_check, update_health_history}
use chat2sql.HealthChecker.Health.{
  begin_check, held, record_result, calculate_overall_health, check_model_health,
}

module _ (name : Bytes) (hc : HealthChecker) where
  pub begin_check-new :
      lookup name hc.history ≡ none
      → begin_check name hc ≡ record hc { history = insert name (new_history name) hc.history }
  unfolding begin_check
  begin_check-new e = rw (e, begin_check) refl

  pub begin_check-known :
      (h : HealthHistory) → lookup name hc.history ≡ some h → begin_check name hc ≡ hc
  unfolding begin_check
  begin_check-known h e = rw (e, begin_check) refl

  config-begin_check : (begin_check name hc).config ≡ hc.config
  config-begin_check = elim (Option-cases (lookup name hc.history)) [
    | inl e ↦ ap (λ (c : HealthChecker). c.config) (begin_check-new e)
    | inr (h, e) ↦ ap (λ (c : HealthChecker). c.config) (begin_check-known h e)
  ]

  module _ (blend : Blend) (r : HealthCheckResult) where
    -- The checker with the result `r` put behind a history, in a map of histories.
    with_result : HealthHistory → Dict Bytes HealthHistory → HealthChecker
    with_result h hs = record hc { history = insert name (update_health_history blend h r) hs }

    -- An empty history that was put in first makes no difference to the result.
    record_result-begin_check :
        record_result blend name r (begin_check name hc) ≡ record_result blend name r hc
    unfolding record_result with_result
    record_result-begin_check = elim (Option-cases (lookup name hc.history)) [
      | inl e ↦
          let new = new_history name in
          let put = insert name new hc.history in
          ap (record_result blend name r) (begin_check-new e)
          ∙ (ap (λ o. with_result (value_or new o) put) (lookup-insert_self name new hc.history)
              ∙ (ap (λ hs. record hc { history = hs })
                    (insert-insert name new (update_health_history blend new r) hc.history)
                  ∙ sym (ap (λ o. with_result (value_or new o) hc.history) e)))
      | inr (h, e) ↦ ap (record_result blend name r) (begin_check-known h e)
    ]

    held-record_result :
        held name (record_result blend name r hc) ≡ update_health_history blend (held name hc) r
    unfolding record_result
    held-record_result =
        ap (value_or (new_history name))
          (lookup-insert_self name (update_health_history blend (held name hc) r) hc.history)

-- What a check returns when `c` is the configuration it read and `hc` the checker behind its update.
abbrev reported :
    Unicode
    → Blend
    → Bytes
    → Probe
    → ℕ
    → HealthCheckConfig
    → HealthChecker
    → HealthChecker × ModelHealth
reported u blend name p took c hc = (
  hc,
  record (calculate_overall_health hc.config (held name hc) (perform_health_check u c p)) {
    response_time = took;
  },
)

kept_config :
    (u : Unicode) (blend : Blend) (name : Bytes) (p : Probe) (took : ℕ) (hc : HealthChecker)
    → let r = perform_health_check u hc.config p in
      let h' = update_health_history blend (held name hc) r in
      reported u blend name p took hc.config (record_result blend name r hc) ≡ (
        record_result blend name r hc,
        record (calculate_overall_health hc.config h' r) { response_time = took },
      )
unfolding record_result
kept_config u blend name p took hc =
    let r = perform_health_check u hc.config p in
    ap
      (λ h. (
        record_result blend name r hc,
        record (calculate_overall_health hc.config h r) { response_time = took },
      ))
      (held-record_result name hc blend r)

-- With nothing in between, the steps of a check are one update of the history of its model.
pub check_model_health_lem :
    (u : Unicode) (blend : Blend) (name : Bytes) (p : Probe) (took : ℕ) (hc : HealthChecker)
    → let r = perform_health_check u hc.config p in
      let h' = update_health_history blend (held name hc) r in
      check_model_health u blend name p took hc ≡ (
        record_result blend name r hc,
        record (calculate_overall_health hc.config h' r) { response_time = took },
      )
unfolding check_model_health
check_model_health_lem u blend name p took hc =
    let r = perform_health_check u hc.config p in
    ap
      (λ c.
        reported u blend name p took c
          (record_result blend name (perform_health_check u c p) (begin_check name hc)))
      (config-begin_check name hc)
    ∙ (ap (reported u blend name p took hc.config) (record_result-begin_check name hc blend r)
        ∙ kept_config u blend name p took hc)
