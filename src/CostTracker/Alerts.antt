-- ===== src/CostTracker/Alerts.antt =====
-- internal/ai/cost_tracker.go: when `RecordQueryCost` raises an alert, and how many alerts are kept.
use chat2sql.Prelude.{
  ℕ, ◌≤◌, ◌<◌, ◌≡◌, ◌≢◌, ◌↔◌, ap, subst, ◌∙◌, sym, false, none, some, List, [], ◌∷◌, ◌++◌, lookup,
  value_or, number_key, text_key, if◌then◌else◌, length, length-append, length-drop, ltb, arith,
  lookup-insert_self, Option-cases, drop, inl, inr,
}
use chat2sql.CostTracker.State.{
  CostConfig, Floats, Clock, QueryCost, DailyUsage, UserUsage, CostTracker, CostAlert,
}
use chat2sql.CostTracker.Usage.{
  update_daily_usage, update_user_usage, reset_user_daily_usage_if_needed, new_user, new_daily,
  add_user, add_daily,
}
use chat2sql.CostTracker.Budget.{
  check_user, check_day, check_budget_limits, add_alert, alert_for, record_usage, record_query_cost,
}

-- A list that drops its first `m` entries when it grows past `n`.
trimmed : {A : Type 0} → ℕ → ℕ → List A → List A
trimmed n m xs = if ltb n (length xs) then drop m xs else xs

length-trimmed :
    {A : Type 0} (n m : ℕ) (xs : List A) (a : A)
    → 1 < m
    → 0 < n
    → (length (trimmed n m (xs ++ a ∷ [])) ≢ length xs)
      × (length xs ≤ n → length (trimmed n m (xs ++ a ∷ [])) ≤ n)
unfolding trimmed
length-trimmed n m xs a h k =
    ground (arith, length-append xs (a ∷ []), length-drop m (xs ++ a ∷ []))

length-add_alert :
    (F : Floats) (a : CostAlert F) (ct : CostTracker F)
    → (length (add_alert F a ct).alerts ≢ length ct.alerts)
      × (length ct.alerts ≤ 1000 → length (add_alert F a ct).alerts ≤ 1000)
unfolding add_alert trimmed
length-add_alert F a ct = length-trimmed 1000 100 ct.alerts a (omega arith) (omega arith)

module _ (F : Floats) (k : Clock) (now user : ℕ) (ct : CostTracker F) where
  reset-alerts : (reset_user_daily_usage_if_needed F k now user ct).alerts ≡ ct.alerts
  unfolding reset_user_daily_usage_if_needed
  reset-alerts = ground arith

  reset-config : (reset_user_daily_usage_if_needed F k now user ct).config ≡ ct.config
  unfolding reset_user_daily_usage_if_needed
  reset-config = ground arith

  pub reset-daily : (reset_user_daily_usage_if_needed F k now user ct).daily_usage ≡ ct.daily_usage
  unfolding reset_user_daily_usage_if_needed
  reset-daily = ground arith

  -- What the user has spent today, and what all have, before the call.
  abbrev pub spent_by_user : F.Float
  spent_by_user =
      (value_or (new_user F user now)
        (lookup user (reset_user_daily_usage_if_needed F k now user ct).user_usage)).daily_cost

  abbrev pub spent_today : F.Float
  spent_today =
      (value_or (new_daily F (k.date now) now) (lookup (k.date now) ct.daily_usage)).total_cost

module _ (F : Floats) (k : Clock) (now user : ℕ) (c : QueryCost F) (ct : CostTracker F) where
  abbrev used : CostTracker F
  used = record_usage F k now user c ct

  used-alerts : used.alerts ≡ ct.alerts
  unfolding record_usage update_user_usage update_daily_usage
  used-alerts = reset-alerts F k now user _

  used-config : used.config ≡ ct.config
  unfolding record_usage update_user_usage update_daily_usage
  used-config = reset-config F k now user _

  reset_user-same :
      (reset_user_daily_usage_if_needed F k now user
        (update_daily_usage F (k.date now) now c ct)).user_usage
      ≡ (reset_user_daily_usage_if_needed F k now user ct).user_usage
  unfolding reset_user_daily_usage_if_needed update_daily_usage
  reset_user-same = ground arith

  lookup-used :
      lookup user used.user_usage
      ≡ some (
          add_user F now c (
            value_or
              (new_user F user now)
              (lookup user (reset_user_daily_usage_if_needed F k now user ct).user_usage)))
  unfolding record_usage update_user_usage
  lookup-used =
      lookup-insert_self user _ _
      ∙ ap (λ m. some (add_user F now c (value_or (new_user F user now) (lookup user m))))
          reset_user-same

  pub used-daily : used.daily_usage ≡ (update_daily_usage F (k.date now) now c ct).daily_usage
  unfolding record_usage update_user_usage
  used-daily = reset-daily F k now user (update_daily_usage F (k.date now) now c ct)

  lookup-used_day :
      lookup (k.date now) used.daily_usage
      ≡ some (
          add_daily F now c
            (value_or (new_daily F (k.date now) now) (lookup (k.date now) ct.daily_usage)))
  unfolding update_daily_usage
  lookup-used_day =
      ap (lookup (k.date now)) used-daily ∙ lookup-insert_self (k.date now) _ ct.daily_usage

  check_user_of :
      (u : UserUsage F)
      → lookup user used.user_usage ≡ some u
      → (check_user F user c.cost used ≡ none)
        ↔ (F.above (F.add u.daily_cost c.cost) used.config.user_daily_limit ≡ false)
  unfolding check_user
  check_user_of u h = ground arith

  check_day_of :
      (u : DailyUsage F)
      → lookup (k.date now) used.daily_usage ≡ some u
      → (check_day F (k.date now) c.cost used ≡ none)
        ↔ (F.above (F.add u.total_cost c.cost) used.config.daily_budget ≡ false)
  unfolding check_day
  check_day_of u h = ground arith

  check_user-used : (check_user F user c.cost used ≡ none) ↔ (
      F.above
        (F.add (F.add (spent_by_user F k now user ct) c.cost) c.cost)
        ct.config.user_daily_limit
      ≡ false)
  unfolding add_user
  check_user-used =
      subst
        (λ (cfg : CostConfig F). (check_user F user c.cost used ≡ none) ↔ (
          F.above (F.add (F.add (spent_by_user F k now user ct) c.cost) c.cost) cfg.user_daily_limit
          ≡ false))
        used-config (check_user_of _ lookup-used)

  check_day-used : (check_day F (k.date now) c.cost used ≡ none) ↔ (
      F.above (F.add (F.add (spent_today F k now user ct) c.cost) c.cost) ct.config.daily_budget
      ≡ false)
  unfolding add_daily
  check_day-used =
      subst
        (λ (cfg : CostConfig F). (check_day F (k.date now) c.cost used ≡ none) ↔ (
          F.above (F.add (F.add (spent_today F k now user ct) c.cost) c.cost) cfg.daily_budget
          ≡ false))
        used-config (check_day_of _ lookup-used_day)

  check_query-used :
      F.above c.cost used.config.query_cost_limit ≡ F.above c.cost ct.config.query_cost_limit
  check_query-used = ap (λ (cfg : CostConfig F). F.above c.cost cfg.query_cost_limit) used-config

  check_budget_limits-used : (check_budget_limits F k now user c.cost used ≡ none) ↔ (
      (F.above c.cost ct.config.query_cost_limit ≡ false)
      × (check_user F user c.cost used ≡ none)
      × (check_day F (k.date now) c.cost used ≡ none))
  unfolding check_budget_limits
  check_budget_limits-used = ground (arith, check_query-used)

  quiet_iff :
      (length (record_query_cost F k now user c ct).alerts ≡ length ct.alerts)
      ↔ (check_budget_limits F k now user c.cost used ≡ none)
  unfolding record_query_cost
  quiet_iff = elim (Option-cases (check_budget_limits F k now user c.cost used)) [
    | inl e ↦ (λ h. e, λ h. rw (e, record_query_cost) (ap length used-alerts))
    | inr (x, e) ↦ (
      λ h. absurd (
          (length-add_alert F (alert_for F now user c used x) used).0
            (rw (e, record_query_cost) at h ∙ sym (ap length used-alerts))),
      λ h. absurd (ground arith),
    )
  ]

-- `RecordQueryCost` raises no alert exactly if the cost is within the limit of one query, and the sums
-- of the user and of the day, to which this cost is added twice, are within theirs.
pub record_query_cost_quiet_iff :
    (F : Floats) (k : Clock) (now user : ℕ) (c : QueryCost F) (ct : CostTracker F)
    → (length (record_query_cost F k now user c ct).alerts ≡ length ct.alerts) ↔ (
        (F.above c.cost ct.config.query_cost_limit ≡ false)
        × (F.above
              (F.add (F.add (spent_by_user F k now user ct) c.cost) c.cost)
              ct.config.user_daily_limit
            ≡ false)
        × (F.above
              (F.add (F.add (spent_today F k now user ct) c.cost) c.cost)
              ct.config.daily_budget
            ≡ false))
record_query_cost_quiet_iff F k now user c ct =
    let (quiet, calm) = quiet_iff F k now user c ct in
    let (split, join) = check_budget_limits-used F k now user c ct in
    let (a, a') = check_user-used F k now user c ct in
    let (b, b') = check_day-used F k now user c ct in
    (
      λ h. let (q, w, d) = split (quiet h) in (q, a w, b d),
      λ (q, w, d). calm (join (q, a' w, b' d)),
    )

-- If at most a thousand alerts are kept before a call, so are after it.
pub record_query_cost-alerts :
    (F : Floats) (k : Clock) (now user : ℕ) (c : QueryCost F) (ct : CostTracker F)
    → length ct.alerts ≤ 1000
    → length (record_query_cost F k now user c ct).alerts ≤ 1000
unfolding record_query_cost
record_query_cost-alerts F k now user c ct h =
    let kept : length (used F k now user c ct).alerts ≤ 1000 =
      rw (used-alerts F k now user c ct) h in
    elim (Option-cases (check_budget_limits F k now user c.cost (used F k now user c ct))) [
      | inl e ↦ rw (e, record_query_cost) kept
      | inr (x, e) ↦ rw (e, record_query_cost) ((length-add_alert F _ _).1 kept)
    ]
