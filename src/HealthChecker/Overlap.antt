-- ===== src/HealthChecker/Overlap.antt =====
-- internal/routing/health_checker.go: checks that overlap with one another and with the other calls. A
-- check is two events, since `CheckModelHealth` gives up the lock while the API answers: before it, a model
-- without a history gets an empty one, and behind it the result goes into the history. The configuration
-- that a check read may have been replaced meanwhile, so its result is that of any configuration. A history
-- that was cleared while its model was checked is no longer in the map when the result comes, and that
-- update is no event of the map.
use chat2sql.Prelude.{
  ◌≡◌, refl, ap, subst, sym, Option, none, some, inl, inr, List, [], ◌∷◌, Bytes, Unicode,
  Option-cases, lookup, text_key,
}
use chat2sql.HealthChecker.State.{
  HealthCheckConfig, HealthHistory, HealthChecker, new_history, new_health_checker,
}
use chat2sql.HealthChecker.Check.{Blend, Probe, perform_health_check}
use chat2sql.HealthChecker.Health.{begin_check, held, record_result}
use chat2sql.HealthChecker.Begin.{begin_check-new, begin_check-known}
use chat2sql.HealthChecker.Entries.{AllAre, insert-AllAre, keep-AllAre, lookup-AllAre}
use chat2sql.HealthChecker.History.{
  Results, IsRecordOf, new_history-IsRecordOf, update_health_history-IsRecordOf,
}
use chat2sql.HealthChecker.Queries.{update_config, clear_history, clear_all_history}
use chat2sql.HealthChecker.Results.{perform_health_check-known}
use chat2sql.HealthChecker.Runs.{IsChecked}

pub data Event : Type 0 where
  begins : Bytes → Event
  finishes : Bytes → HealthCheckConfig → Probe → Event
  configures : HealthCheckConfig → Event
  clears : Bytes → Event
  clears_all : Event

module _ (u : Unicode) (blend : Blend) where
  -- The result of a check goes into the history that it holds.
  unfoldable pub finish_check : Bytes → HealthCheckConfig → Probe → HealthChecker → HealthChecker
  unfolding record_result perform_health_check lookup
  finish_check name c p hc = elim (lookup name hc.history) [
    | none ↦ hc
    | some h ↦ record_result blend name (perform_health_check u c p) hc
  ]

  unfoldable pub happen : HealthChecker → Event → HealthChecker
  unfolding begin_check finish_check
  happen hc (begins name) = begin_check name hc
  happen hc (finishes name c p) = finish_check name c p hc
  happen hc (configures c) = update_config c hc
  happen hc (clears name) = clear_history name hc
  happen hc clears_all = clear_all_history hc

  unfoldable pub happen_all : HealthChecker → List Event → HealthChecker
  unfolding happen
  happen_all hc [] = hc
  happen_all hc (e ∷ es) = happen_all (happen hc e) es

-- A history without a result, of a first check under way, or one of one or more checks.
pub data IsHistory (h : HealthHistory) : Type 0 where
  unused : IsRecordOf [] h → IsHistory h
  used : IsChecked h → IsHistory h

abbrev pub AllHistories : HealthChecker → Type 0
AllHistories hc = AllAre IsHistory hc.history

recorded : (h : HealthHistory) → IsHistory h → (rs : Results) × IsRecordOf rs h
recorded h (unused v) = ([], v)
recorded h (used v) = (v.last ∷ v.earlier, v.recorded)

begin_check-AllHistories :
    (name : Bytes) (hc : HealthChecker) → AllHistories hc → AllHistories (begin_check name hc)
begin_check-AllHistories name hc vs = elim (Option-cases (lookup name hc.history)) [
  | inl e ↦ subst AllHistories (sym (begin_check-new name hc e)) (
      insert-AllAre IsHistory name (new_history name) hc.history
        (unused (new_history-IsRecordOf name)) vs)
  | inr (h, e) ↦ subst AllHistories (sym (begin_check-known name hc h e)) vs
]

module _ (u : Unicode) (blend : Blend) where
  finish_check-cleared :
      (name : Bytes) (c : HealthCheckConfig) (p : Probe) (hc : HealthChecker)
      → lookup name hc.history ≡ none
      → finish_check u blend name c p hc ≡ hc
  unfolding finish_check
  finish_check-cleared name c p hc e = rw (e, finish_check) refl

  finish_check-held :
      (name : Bytes) (c : HealthCheckConfig) (p : Probe) (hc : HealthChecker) (h : HealthHistory)
      → lookup name hc.history ≡ some h
      → finish_check u blend name c p hc ≡ record_result blend name (perform_health_check u c p) hc
  unfolding finish_check
  finish_check-held name c p hc h e =
      let done = record_result blend name (perform_health_check u c p) hc in
      ap (λ (o : Option HealthHistory). elim o [ none ↦ hc | some h ↦ done ]) e

  record_result-AllHistories :
      (name : Bytes) (c : HealthCheckConfig) (p : Probe) (hc : HealthChecker) (rs : Results)
      → IsRecordOf rs (held name hc)
      → AllHistories hc
      → AllHistories (record_result blend name (perform_health_check u c p) hc)
  unfolding record_result
  record_result-AllHistories name c p hc rs v vs =
      let r = perform_health_check u c p in
      insert-AllAre IsHistory name _ hc.history
        (used (record {
          last = r;
          earlier = rs;
          recorded = update_health_history-IsRecordOf blend rs (held name hc) r v;
          known = perform_health_check-known u c p;
        }))
        vs

  finish_check-AllHistories :
      (name : Bytes) (c : HealthCheckConfig) (p : Probe) (hc : HealthChecker)
      → AllHistories hc
      → AllHistories (finish_check u blend name c p hc)
  finish_check-AllHistories name c p hc vs = elim (Option-cases (lookup name hc.history)) [
    | inl e ↦ subst AllHistories (sym (finish_check-cleared name c p hc e)) vs
    | inr (h, e) ↦
        let (rs, v) = recorded h (lookup-AllAre IsHistory name hc.history h vs e) in
        subst AllHistories (sym (finish_check-held name c p hc h e))
          (record_result-AllHistories name c p hc rs (rw e v) vs)
  ]

  happen-AllHistories :
      (hc : HealthChecker) (e : Event) → AllHistories hc → AllHistories (happen u blend hc e)
  unfolding happen update_config clear_history clear_all_history
  happen-AllHistories hc (begins name) vs = begin_check-AllHistories name hc vs
  happen-AllHistories hc (finishes name c p) vs = finish_check-AllHistories name c p hc vs
  happen-AllHistories hc (configures c) vs = vs
  happen-AllHistories hc (clears name) vs = keep-AllAre IsHistory _ hc.history vs
  happen-AllHistories hc clears_all vs = tt

  happen_all-keeps :
      (hc : HealthChecker) (es : List Event)
      → AllHistories hc
      → AllHistories (happen_all u blend hc es)
  unfolding happen_all
  happen_all-keeps hc [] vs = vs
  happen_all-keeps hc (e ∷ es) vs =
      happen_all-keeps (happen u blend hc e) es (happen-AllHistories hc e vs)

-- After any events on a new checker, each history is new and empty or the record of one or more checks.
pub happen_all-AllHistories :
    (u : Unicode) (blend : Blend) (es : List Event)
    → AllHistories (happen_all u blend new_health_checker es)
happen_all-AllHistories u blend es = happen_all-keeps u blend new_health_checker es tt
