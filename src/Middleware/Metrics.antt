-- ===== src/Middleware/Metrics.antt =====
-- internal/middleware/middleware.go: `MetricsMiddleware`, one request after another.
use chat2sql.Prelude.{
  ℕ, suc, List, [], ◌∷◌, ◌++◌, Bytes, Dict, text_key, lookup, insert, value_or, if◌then◌else◌,
  newest, decimal, is_empty,
}

pub record RequestMetrics : Type 0 where
  pub request_total : Dict Bytes ℕ
  pub request_duration : Dict Bytes (List ℕ)

-- What is known of a request when its handlers are done.
pub record Served : Type 0 where
  pub method : Bytes
  pub full_path : Bytes
  pub url_path : Bytes
  pub status : ℕ
  pub duration : ℕ

unfoldable pub duration_key : Served → Bytes
duration_key r = r.method ++ (b'_' ∷ (if is_empty r.full_path then r.url_path else r.full_path))

unfoldable pub total_key : Served → Bytes
unfolding duration_key
total_key r = duration_key r ++ (b'_' ∷ decimal r.status)

-- How many durations are kept.
abbrev pub window : ℕ
window = 1000

unfoldable pub record_total : Served → RequestMetrics → RequestMetrics
unfolding total_key lookup insert
record_total r m = record m {
  request_total =
      insert (total_key r) (suc (value_or 0 (lookup (total_key r) m.request_total)))
        m.request_total;
}

unfoldable pub record_duration : ℕ → Served → RequestMetrics → RequestMetrics
unfolding duration_key lookup insert newest
record_duration n r m = record m {
  request_duration =
      insert (duration_key r)
        (newest n (value_or [] (lookup (duration_key r) m.request_duration) ++ r.duration ∷ []))
        m.request_duration;
}

abbrev pub record_request : Served → RequestMetrics → RequestMetrics
record_request r m = record_duration window r (record_total r m)

abbrev pub no_metrics : RequestMetrics
no_metrics = record { request_total = []; request_duration = [] }

abbrev pub record_all : List Served → RequestMetrics → RequestMetrics
record_all [] m = m
record_all (r ∷ rs) m = record_all rs (record_request r m)
