-- ===== src/ContextManager/History.antt =====
-- internal/ai/context_manager.go: `AddQueryHistory`, `GetRecentHistory` and the context of a user.
use chat2sql.Prelude.{
  ℕ, zero, suc, Bool, true, false, none, some, List, [], ◌∷◌, ◌++◌, Bytes, if◌then◌else◌, ltb,
  length, take, drop, reverse, Unicode, number_key, lookup, insert, value_or,
}
use chat2sql.ContextManager.Patterns.{analyze_query_pattern}
use chat2sql.ContextManager.State.{
  ContextManager, QueryHistory, UserQueryHistory, UserContext, new_user_context,
}

-- The record of a user that none is known of.
unfoldable pub new_history : ℕ → UserQueryHistory
new_history now = record { queries = []; last_access = now; total_queries = 0 }

-- Past the limit, the queries move down by one and are cut.
unfoldable pub push : ℕ → QueryHistory → List QueryHistory → List QueryHistory
push max q queries =
    let longer = queries ++ q ∷ [] in
    if ltb max (length longer) then take max (drop 1 longer) else longer

unfoldable pub add_record : ℕ → QueryHistory → UserQueryHistory → UserQueryHistory
unfolding push
add_record max q h = record {
  queries = push max q h.queries;
  last_access = q.timestamp;
  total_queries = suc h.total_queries;
}

unfoldable pub update_user_context :
    Unicode → ContextManager → ℕ → ℕ → Bytes → Bytes → ContextManager
unfolding analyze_query_pattern new_user_context lookup insert
update_user_context u cm now user_id query sql =
    let ctx = value_or (new_user_context now) (lookup user_id cm.user_context_cache) in
    record cm {
      user_context_cache =
          insert user_id (analyze_query_pattern u query sql (record ctx { last_active = now }))
            cm.user_context_cache;
    }

unfoldable pub add_query_history :
    Unicode → ContextManager → ℕ → ℕ → Bytes → Bytes → Bool → ContextManager
unfolding add_record new_history lookup insert
add_query_history u cm now user_id query sql success =
    let q : QueryHistory = record {
      query = query;
      sql = sql;
      success = success;
      timestamp = now;
    } in
    let h = value_or (new_history now) (lookup user_id cm.history_buffer) in
    let added : ContextManager = record cm {
      history_buffer = insert user_id (add_record cm.config.max_history_size q h) cm.history_buffer;
    } in
    if success then update_user_context u added now user_id query sql else added

-- The loop from the last query to the first; `wanted` more are to be found.
unfoldable pub recent_from : ℕ → List QueryHistory → List QueryHistory
recent_from zero queries = []
recent_from (suc wanted) [] = []
recent_from (suc wanted) (q ∷ queries) = elim q.success [
  | true ↦ q ∷ recent_from wanted queries
  | false ↦ recent_from (suc wanted) queries
]

unfoldable pub get_recent_history : ContextManager → ℕ → ℕ → ℕ → List QueryHistory × ContextManager
unfolding recent_from lookup insert
get_recent_history cm now user_id limit = elim (lookup user_id cm.history_buffer) [
  | none ↦ ([], cm)
  | some h ↦ (
    recent_from limit (reverse h.queries),
    record cm {
      history_buffer = insert user_id (record h { last_access = now }) cm.history_buffer;
    },
  )
]

unfoldable pub get_user_context : ContextManager → ℕ → ℕ → UserContext × ContextManager
unfolding new_user_context lookup insert
get_user_context cm now user_id =
    let ctx : UserContext =
      record (value_or (new_user_context now) (lookup user_id cm.user_context_cache)) {
        last_active = now;
      } in
    (ctx, record cm { user_context_cache = insert user_id ctx cm.user_context_cache })
