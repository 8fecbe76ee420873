-- ===== src/CostTracker/Tests.antt =====
-- Runs of internal/ai/cost_tracker.go on amounts in whole cents.
use chat2sql.Prelude.{
  ℕ, ◌+◌, ◌*◌, ◌/◌, ◌≡◌, ◌≤◌, ◌↔◌, refl, true, false, List, [], ◌∷◌, codes, ltb, length, lookup,
  insert, same_bytes, arith,
}
use chat2sql.CostTracker.State.{Floats, Clock, QueryCost, CostConfig, CostTracker, new_cost_tracker}
use chat2sql.CostTracker.Usage.{
  add_usage, add_model_usage, add_daily, update_daily_usage, reset_usage,
  reset_user_daily_usage_if_needed, add_user, update_user_usage, get_user_usage,
}
use chat2sql.CostTracker.Budget.{
  calculate_query_cost, check_user, check_day, check_budget_limits, add_alert, record_usage,
  record_query_cost, is_within_budget,
}
use chat2sql.CostTracker.Alerts.{
  record_query_cost_quiet_iff, record_query_cost-alerts, spent_by_user, spent_today,
}
use chat2sql.CostTracker.Days.{Entry, record_all, costs_on, spent, tokens, day, record_all-day}

abbrev cents : Floats
cents = record {
  Float = ℕ;
  zero = 0;
  of_int = λ n. n;
  add = λ a b. a + b;
  mul = λ a b. a * b;
  div = λ a b. a / b;
  above = λ a b. ltb b a;
}

-- A day of a hundred ticks, named by its number.
abbrev clock : Clock
clock = record { date = λ t. (t / 100) ∷ [] }

abbrev limits : CostConfig cents
limits = record {
  daily_budget = 10000;
  user_daily_limit = 1000;
  query_cost_limit = 600;
  daily_alert_threshold = 80;
  user_alert_threshold = 80;
  model_alert_threshold = 80;
  enable_detailed_tracking = true;
  retention_days = 30;
  enable_cost_prediction = true;
}

abbrev query : ℕ → QueryCost cents
query cost = record {
  timestamp = 0;
  query = codes "SELECT 1";
  model_name = codes "gpt-4o";
  input_tokens = 10;
  output_tokens = 5;
  total_tokens = 15;
  cost = cost;
  process_time = 1;
}

abbrev fresh : CostTracker cents
fresh = new_cost_tracker [] limits

abbrev entries : List (Entry cents)
entries =
    record { now = 1; user = 7; cost = query 200 }
    ∷ record { now = 2; user = 8; cost = query 300 }
    ∷ record { now = 101; user = 7; cost = query 400 }
    ∷ []

program : Unit {0}
unfolding lookup insert same_bytes add_usage add_model_usage add_daily update_daily_usage
    reset_usage reset_user_daily_usage_if_needed add_user update_user_usage get_user_usage
    calculate_query_cost check_user check_day check_budget_limits add_alert record_usage
    record_query_cost is_within_budget record_all
program = tt

-- A first query of 501 cents, with a limit of 600 for a query and of 1000 for a user, is within the
-- budget before it is recorded and raises an alert when it is.
counted_twice :
    (is_within_budget cents clock 1 7 501 fresh ≡ true)
    × (length (record_query_cost cents clock 1 7 (query 501) fresh).alerts ≡ 1)
    × (length (record_query_cost cents clock 1 7 (query 500) fresh).alerts ≡ 0)
unfolding program
counted_twice = (refl, refl, refl)

sums_of_days :
    ((day cents clock (0 ∷ []) (record_all cents clock fresh entries)).total_cost ≡ 500)
    × ((day cents clock (1 ∷ []) (record_all cents clock fresh entries)).total_tokens ≡ 15)
unfolding program
sums_of_days = (refl, refl)

record_query_cost_quiet_iff_example :
    (length (record_query_cost cents clock 1 7 (query 501) fresh).alerts ≡ length fresh.alerts) ↔ (
      (ltb 600 501 ≡ false)
      × (ltb 1000 (spent_by_user cents clock 1 7 fresh + 501 + 501) ≡ false)
      × (ltb 10000 (spent_today cents clock 1 7 fresh + 501 + 501) ≡ false))
record_query_cost_quiet_iff_example = record_query_cost_quiet_iff cents clock 1 7 (query 501) fresh

no_alerts : length fresh.alerts ≤ 1000
no_alerts = omega arith

record_query_cost-alerts_example :
    length (record_query_cost cents clock 1 7 (query 501) fresh).alerts ≤ 1000
record_query_cost-alerts_example =
    record_query_cost-alerts cents clock 1 7 (query 501) fresh no_alerts

record_all-day_example :
    let u =
      day cents clock (0 ∷ []) (record_all cents clock (new_cost_tracker [] limits) entries) in
    (u.total_cost ≡ spent cents clock 0 (costs_on cents clock (0 ∷ []) entries))
    × (u.total_tokens ≡ tokens cents clock (costs_on cents clock (0 ∷ []) entries))
    × (u.query_count ≡ length (costs_on cents clock (0 ∷ []) entries))
record_all-day_example = record_all-day cents clock [] limits entries (0 ∷ [])
