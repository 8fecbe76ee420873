-- ===== src/CostTracker/Usage.antt =====
-- internal/ai/cost_tracker.go: `updateDailyUsage`, `updateUserUsage`, `resetUserDailyUsageIfNeeded`
-- and `GetUserUsage`. A call reads the clock once.
use chat2sql.Prelude.{
  ℕ, ◌+◌, Option, none, some, List, [], ◌∷◌, ◌++◌, Bytes, Dict, lookup, insert, value_or,
  number_key, text_key, same_bytes, if◌then◌else◌, length, drop, ltb,
}
use chat2sql.CostTracker.State.{Floats, Clock, QueryCost, DailyUsage, UserUsage, CostTracker}
use chat2sql.CostTracker.State

module _ (F : Floats) where
  abbrev pub no_usage : State.Usage F
  no_usage = record {
    query_count = 0;
    input_tokens = 0;
    output_tokens = 0;
    total_tokens = 0;
    cost = F.zero;
  }

  unfoldable pub add_usage : QueryCost F → State.Usage F → State.Usage F
  add_usage c u = record {
    query_count = u.query_count + 1;
    input_tokens = u.input_tokens + c.input_tokens;
    output_tokens = u.output_tokens + c.output_tokens;
    total_tokens = u.total_tokens + c.total_tokens;
    cost = F.add u.cost c.cost;
  }

  -- Both tables of usage by model.
  unfoldable pub add_model_usage :
      QueryCost F → Dict Bytes (State.Usage F) → Dict Bytes (State.Usage F)
  unfolding add_usage lookup insert
  add_model_usage c m =
      insert c.model_name (add_usage c (value_or no_usage (lookup c.model_name m))) m

  abbrev pub new_daily : Bytes → ℕ → DailyUsage F
  new_daily date now = record {
    date = date;
    total_cost = F.zero;
    total_tokens = 0;
    query_count = 0;
    model_usage = [];
    user_counts = [];
    last_updated = now;
  }

  unfoldable pub add_daily : ℕ → QueryCost F → DailyUsage F → DailyUsage F
  unfolding add_model_usage
  add_daily now c u = record u {
    total_cost = F.add u.total_cost c.cost;
    total_tokens = u.total_tokens + c.total_tokens;
    query_count = u.query_count + 1;
    model_usage = add_model_usage c u.model_usage;
    last_updated = now;
  }

  unfoldable pub update_daily_usage : Bytes → ℕ → QueryCost F → CostTracker F → CostTracker F
  update_daily_usage date now c ct = record ct {
    daily_usage =
        insert date (add_daily now c (value_or (new_daily date now) (lookup date ct.daily_usage)))
          ct.daily_usage;
  }

  unfoldable pub reset_usage : Clock → ℕ → UserUsage F → UserUsage F
  reset_usage k now u =
      if same_bytes (k.date now) (k.date u.last_reset)
      then u
      else record u { daily_cost = F.zero; daily_tokens = 0; daily_queries = 0; last_reset = now }

  unfoldable pub reset_user_daily_usage_if_needed : Clock → ℕ → ℕ → CostTracker F → CostTracker F
  reset_user_daily_usage_if_needed k now user ct = elim (lookup user ct.user_usage) [
    | none ↦ ct
    | some u ↦ record ct { user_usage = insert user (reset_usage k now u) ct.user_usage }
  ]

  abbrev pub new_user : ℕ → ℕ → UserUsage F
  new_user user now = record {
    user_id = user;
    daily_cost = F.zero;
    daily_tokens = 0;
    daily_queries = 0;
    model_usage = [];
    query_history = [];
    last_query = none;
    last_reset = now;
  }

  abbrev pub newest_100 : List (QueryCost F) → List (QueryCost F)
  newest_100 cs = if ltb 100 (length cs) then drop 1 cs else cs

  unfoldable pub add_user : ℕ → QueryCost F → UserUsage F → UserUsage F
  unfolding add_model_usage
  add_user now c u = record u {
    daily_cost = F.add u.daily_cost c.cost;
    daily_tokens = u.daily_tokens + c.total_tokens;
    daily_queries = u.daily_queries + 1;
    last_query = some now;
    model_usage = add_model_usage c u.model_usage;
    query_history = newest_100 (u.query_history ++ c ∷ []);
  }

  unfoldable pub update_user_usage : Clock → ℕ → ℕ → QueryCost F → CostTracker F → CostTracker F
  update_user_usage k now user c ct =
      let fresh = reset_user_daily_usage_if_needed k now user ct in
      record fresh {
        user_usage =
            insert user
              (add_user now c (value_or (new_user user now) (lookup user fresh.user_usage)))
              fresh.user_usage;
      }

  unfoldable pub get_user_usage :
      Clock → ℕ → ℕ → CostTracker F → CostTracker F × Option (UserUsage F)
  get_user_usage k now user ct =
      let fresh = reset_user_daily_usage_if_needed k now user ct in
      (fresh, lookup user fresh.user_usage)
