-- ===== src/CostTracker/Budget.antt =====
-- internal/ai/cost_tracker.go: `CalculateQueryCost`, `checkBudgetLimits`, `addAlert`,
-- `RecordQueryCost`, `IsWithinBudget`, `UpdateModelCost` and `GetModelCost`.
use chat2sql.Prelude.{
  ℕ, Bool, true, false, Option, none, some, [], ◌∷◌, ◌++◌, Bytes, lookup, insert, value_or,
  number_key, text_key, if◌then◌else◌, length, drop, ltb,
}
use chat2sql.CostTracker.State.{
  Floats, Clock, QueryCost, CostTracker, ModelCost, CostAlert, CostLimitError, single_query,
  user_daily, daily_total,
}
use chat2sql.CostTracker.Usage.{update_daily_usage, update_user_usage}

module _ (F : Floats) where
  -- `standard` holds the prices that are used for a model without an entry.
  unfoldable pub calculate_query_cost : ModelCost F → ℕ → ℕ → Bytes → CostTracker F → F.Float
  unfolding lookup
  calculate_query_cost standard input output model ct =
      let m = value_or standard (lookup model ct.model_costs) in
      let thousand = F.of_int 1000 in
      let total =
        F.add (F.div (F.mul (F.of_int input) m.input_cost_per_1k) thousand)
          (F.div (F.mul (F.of_int output) m.output_cost_per_1k) thousand) in
      if F.above m.minimum_cost total then m.minimum_cost else total

  -- The three limits: none is the code's nil.
  unfoldable pub check_user : ℕ → F.Float → CostTracker F → Option (CostLimitError F)
  check_user user cost ct = elim (lookup user ct.user_usage) [
    | none ↦ none
    | some u ↦
        if F.above (F.add u.daily_cost cost) ct.config.user_daily_limit
        then some (user_daily (F.add u.daily_cost cost) ct.config.user_daily_limit)
        else none
  ]

  unfoldable pub check_day : Bytes → F.Float → CostTracker F → Option (CostLimitError F)
  check_day today cost ct = elim (lookup today ct.daily_usage) [
    | none ↦ none
    | some u ↦
        if F.above (F.add u.total_cost cost) ct.config.daily_budget
        then some (daily_total (F.add u.total_cost cost) ct.config.daily_budget)
        else none
  ]

  unfoldable pub check_budget_limits :
      Clock → ℕ → ℕ → F.Float → CostTracker F → Option (CostLimitError F)
  check_budget_limits k now user cost ct =
      if F.above cost ct.config.query_cost_limit
      then some (single_query cost ct.config.query_cost_limit)
      else elim (check_user user cost ct) [
        | some e ↦ some e
        | none ↦ check_day (k.date now) cost ct
      ]

  unfoldable pub add_alert : CostAlert F → CostTracker F → CostTracker F
  add_alert a ct =
      let alerts = ct.alerts ++ a ∷ [] in
      record ct { alerts = if ltb 1000 (length alerts) then drop 100 alerts else alerts }

  -- The alert of `RecordQueryCost` for an error
  abbrev pub alert_for : ℕ → ℕ → QueryCost F → CostTracker F → CostLimitError F → CostAlert F
  alert_for now user c ct e = record {
    message = e;
    value = c.cost;
    threshold = ct.config.query_cost_limit;
    timestamp = now;
    user_id = user;
  }

  unfoldable pub record_usage : Clock → ℕ → ℕ → QueryCost F → CostTracker F → CostTracker F
  record_usage k now user c ct =
      update_user_usage F k now user c (update_daily_usage F (k.date now) now c ct)

  unfoldable pub record_query_cost : Clock → ℕ → ℕ → QueryCost F → CostTracker F → CostTracker F
  record_query_cost k now user c ct =
      let used = record_usage k now user c ct in
      elim (check_budget_limits k now user c.cost used) [
        | none ↦ used
        | some e ↦ add_alert (alert_for now user c used e) used
      ]

  unfoldable pub is_within_budget : Clock → ℕ → ℕ → F.Float → CostTracker F → Bool
  is_within_budget k now user cost ct = elim (check_budget_limits k now user cost ct) [
    | none ↦ true
    | some e ↦ false
  ]

  unfoldable pub update_model_cost : ℕ → Bytes → ModelCost F → CostTracker F → CostTracker F
  update_model_cost now model c ct = record ct {
    model_costs = insert model (record c { last_updated = now }) ct.model_costs;
  }

  unfoldable pub get_model_cost : Bytes → CostTracker F → Option (ModelCost F)
  get_model_cost model ct = lookup model ct.model_costs
