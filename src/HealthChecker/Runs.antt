-- ===== src/HealthChecker/Runs.antt =====
-- internal/routing/health_checker.go: any sequence of calls, each ended before the next, and what
-- every history in the map is.
use chat2sql.Prelude.{
  ℕ, ◌≢◌, List, [], ◌∷◌, Bytes, Unicode, Dict, Option-cases, inl, inr, lookup, text_key, value_or,
  subst, sym,
}
use chat2sql.HealthChecker.State.{
  unknown, HealthCheckConfig, HealthCheckResult, HealthHistory, ModelHealth, HealthChecker,
  new_history, new_health_checker,
}
use chat2sql.HealthChecker.Check.{Blend, Probe, perform_health_check}
use chat2sql.HealthChecker.Health.{check_model_health, record_result}
use chat2sql.HealthChecker.Begin.{check_model_health_lem}
use chat2sql.HealthChecker.Entries.{AllAre, insert-AllAre, keep-AllAre, lookup-AllAre}
use chat2sql.HealthChecker.History.{
  Results, IsRecordOf, new_history-IsRecordOf, update_health_history-IsRecordOf,
}
use chat2sql.HealthChecker.Queries.{update_config, clear_history, clear_all_history}
use chat2sql.HealthChecker.Results.{perform_health_check-known}

pub data Call : Type 0 where
  checks : Bytes → Probe → ℕ → Call
  configures : HealthCheckConfig → Call
  clears : Bytes → Call
  clears_all : Call

module _ (u : Unicode) (blend : Blend) where
  unfoldable pub step : HealthChecker → Call → HealthChecker
  step hc (checks name p took) = (check_model_health u blend name p took hc).0
  step hc (configures c) = update_config c hc
  step hc (clears name) = clear_history name hc
  step hc clears_all = clear_all_history hc

  unfoldable pub run : HealthChecker → List Call → HealthChecker
  unfolding step
  run hc [] = hc
  run hc (c ∷ cs) = run (step hc c) cs

-- A history of at least one check, the last of them with a status that is known.
pub record IsChecked (h : HealthHistory) : Type 0 where
  pub last : HealthCheckResult
  pub earlier : Results
  pub recorded : IsRecordOf (last ∷ earlier) h
  pub known : last.status ≢ unknown

abbrev pub AllChecked : Dict Bytes HealthHistory → Type 0
AllChecked = AllAre IsChecked

-- The history that a check begins with is the record of some earlier results.
pub recorded_before :
    (name : Bytes) (hc : HealthChecker)
    → AllChecked hc.history
    → (rs : Results) × IsRecordOf rs (value_or (new_history name) (lookup name hc.history))
recorded_before name hc vs = elim (Option-cases (lookup name hc.history)) [
  | inl e ↦ ([], rw e (new_history-IsRecordOf name))
  | inr (h, e) ↦
      let v = lookup-AllAre IsChecked name hc.history h vs e in
      (v.last ∷ v.earlier, rw e v.recorded)
]

module _ (u : Unicode) (blend : Blend) where
  check-AllChecked :
      (name : Bytes) (p : Probe) (took : ℕ) (hc : HealthChecker)
      → AllChecked hc.history
      → AllChecked (check_model_health u blend name p took hc).0.history
  unfolding record_result
  check-AllChecked name p took hc vs =
      let r = perform_health_check u hc.config p in
      let (rs, v) = recorded_before name hc vs in
      subst (λ (out : HealthChecker × ModelHealth). AllChecked out.0.history)
        (sym (check_model_health_lem u blend name p took hc))
        (insert-AllAre IsChecked name _ hc.history
          (record {
            last = r;
            earlier = rs;
            recorded = update_health_history-IsRecordOf blend rs _ r v;
            known = perform_health_check-known u hc.config p;
          })
          vs)

  pub step-AllChecked :
      (hc : HealthChecker) (c : Call)
      → AllChecked hc.history
      → AllChecked (step u blend hc c).history
  unfolding step update_config clear_history clear_all_history
  step-AllChecked hc (checks name p took) vs = check-AllChecked name p took hc vs
  step-AllChecked hc (configures c) vs = vs
  step-AllChecked hc (clears name) vs = keep-AllAre IsChecked _ hc.history vs
  step-AllChecked hc clears_all vs = tt

  run-keeps :
      (hc : HealthChecker) (cs : List Call)
      → AllChecked hc.history
      → AllChecked (run u blend hc cs).history
  unfolding run
  run-keeps hc [] vs = vs
  run-keeps hc (c ∷ cs) vs = run-keeps (step u blend hc c) cs (step-AllChecked hc c vs)

-- After any calls on a new checker, one after another, each history is that of one or more checks: it keeps
-- the newest hundred results in order, its totals count all of them, and its two streaks are the
-- runs of successes and of failures at their end.
pub run-AllChecked :
    (u : Unicode) (blend : Blend) (cs : List Call)
    → AllChecked (run u blend new_health_checker cs).history
run-AllChecked u blend cs = run-keeps u blend new_health_checker cs tt
