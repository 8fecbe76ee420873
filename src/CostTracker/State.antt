-- ===== src/CostTracker/State.antt =====
-- internal/ai/cost_tracker.go: the tracker's state. Amounts are floats, of which the code uses the
-- operations listed in `Floats`; times are whole nanoseconds, and `date` is the calendar day of a time
-- as the code formats it.
use chat2sql.Prelude.{ℕ, Bool, Option, List, [], Bytes, Dict}

pub record Floats : Type 1 where
  pub Float : Type 0
  pub zero : Float
  pub of_int : ℕ → Float
  pub add : Float → Float → Float
  pub mul : Float → Float → Float
  pub div : Float → Float → Float
  -- `a > b`
  pub above : Float → Float → Bool

pub record Clock : Type 0 where
  pub date : ℕ → Bytes

pub record CostConfig (F : Floats) : Type 0 where
  pub daily_budget : F.Float
  pub user_daily_limit : F.Float
  pub query_cost_limit : F.Float
  pub daily_alert_threshold : F.Float
  pub user_alert_threshold : F.Float
  pub model_alert_threshold : F.Float
  pub enable_detailed_tracking : Bool
  pub retention_days : ℕ
  pub enable_cost_prediction : Bool

pub record Usage (F : Floats) : Type 0 where
  pub query_count : ℕ
  pub input_tokens : ℕ
  pub output_tokens : ℕ
  pub total_tokens : ℕ
  pub cost : F.Float

pub record QueryCost (F : Floats) : Type 0 where
  pub timestamp : ℕ
  pub query : Bytes
  pub model_name : Bytes
  pub input_tokens : ℕ
  pub output_tokens : ℕ
  pub total_tokens : ℕ
  pub cost : F.Float
  pub process_time : ℕ

pub record DailyUsage (F : Floats) : Type 0 where
  pub date : Bytes
  pub total_cost : F.Float
  pub total_tokens : ℕ
  pub query_count : ℕ
  pub model_usage : Dict Bytes (Usage F)
  pub user_counts : Dict ℕ ℕ
  pub last_updated : ℕ

-- A time that was not set is `none`.
pub record UserUsage (F : Floats) : Type 0 where
  pub user_id : ℕ
  pub daily_cost : F.Float
  pub daily_tokens : ℕ
  pub daily_queries : ℕ
  pub model_usage : Dict Bytes (Usage F)
  pub query_history : List (QueryCost F)
  pub last_query : Option ℕ
  pub last_reset : ℕ

pub record ModelCost (F : Floats) : Type 0 where
  pub model_name : Bytes
  pub provider : Bytes
  pub input_cost_per_1k : F.Float
  pub output_cost_per_1k : F.Float
  pub minimum_cost : F.Float
  pub last_updated : ℕ

-- `CostLimitError`, with the type as the constructor
pub data CostLimitError (F : Floats) : Type 0 where
  single_query user_daily daily_total : F.Float → F.Float → CostLimitError F

-- The code sets one type and one level for every alert; both are left out.
pub record CostAlert (F : Floats) : Type 0 where
  pub message : CostLimitError F
  pub value : F.Float
  pub threshold : F.Float
  pub timestamp : ℕ
  pub user_id : ℕ

pub record CostTracker (F : Floats) : Type 0 where
  pub daily_usage : Dict Bytes (DailyUsage F)
  pub user_usage : Dict ℕ (UserUsage F)
  pub model_costs : Dict Bytes (ModelCost F)
  pub config : CostConfig F
  pub alerts : List (CostAlert F)

-- `NewCostTracker` with a configuration. The table that `initializeModelCosts` fills is an argument.
abbrev pub new_cost_tracker : {F : Floats} → Dict Bytes (ModelCost F) → CostConfig F → CostTracker F
new_cost_tracker table c = record {
  daily_usage = [];
  user_usage = [];
  model_costs = table;
  config = c;
  alerts = [];
}
