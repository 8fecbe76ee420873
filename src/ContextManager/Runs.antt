-- ===== src/ContextManager/Runs.antt =====
-- internal/ai/context_manager.go: any calls of a manager, one after another.
use chat2sql.Prelude.{ℕ, Bool, List, [], ◌∷◌, Bytes, Unicode}
use chat2sql.ContextManager.History.{add_query_history, get_recent_history, get_user_context}
use chat2sql.ContextManager.Schemas.{cache_schema}
use chat2sql.ContextManager.State.{ContextManager, SchemaInfo}
use chat2sql.ContextManager.Upkeep.{perform_cleanup}

-- The calls that change the manager, each with its time.
pub data Call : Type 0 where
  caching : ℕ → ℕ → SchemaInfo → Call
  adding : ℕ → ℕ → Bytes → Bytes → Bool → Call
  reading_history : ℕ → ℕ → ℕ → Call
  reading_context : ℕ → ℕ → Call
  cleaning : ℕ → Call

unfoldable pub step : Unicode → Call → ContextManager → ContextManager
step u (caching now id schema) cm = cache_schema cm now id schema
step u (adding now user_id query sql success) cm =
    add_query_history u cm now user_id query sql success
step u (reading_history now user_id limit) cm = (get_recent_history cm now user_id limit).1
step u (reading_context now user_id) cm = (get_user_context cm now user_id).1
step u (cleaning now) cm = perform_cleanup cm now

abbrev pub run : Unicode → List Call → ContextManager → ContextManager
run u [] cm = cm
run u (c ∷ calls) cm = run u calls (step u c cm)
