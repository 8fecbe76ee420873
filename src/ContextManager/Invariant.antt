-- ===== src/ContextManager/Invariant.antt =====
-- internal/ai/context_manager.go: the bounds that every reachable manager keeps.
use chat2sql.Prelude.{
  ℕ, suc, ◌-◌, ◌≤◌, ◌≡◌, refl, subst, sym, Bool, some, List, [], ◌∷◌, Bytes, length, Unicode,
  number_key, lookup, insert, length-keep-le, value_or, if_holds, Option-cases, inl, inr, arith,
}
use chat2sql.ContextManager.History.{
  new_history, add_record, update_user_context, add_query_history, get_recent_history,
  get_user_context,
}
use chat2sql.ContextManager.Bounds.{
  Every, insert-Every, keep-Every, lookup-Every, length-insert-le, make_room-length, length-push-le,
}
use chat2sql.ContextManager.Memory.{IsBounded, analyze_query_pattern-IsBounded}
use chat2sql.ContextManager.Runs.{
  Call, caching, adding, reading_history, reading_context, cleaning, step, run,
}
use chat2sql.ContextManager.Schemas.{make_room, cache_schema}
use chat2sql.ContextManager.State.{
  ContextManager, ContextConfig, SchemaInfo, UserQueryHistory, UserContext, new_context_manager,
  new_user_context,
}
use chat2sql.ContextManager.Upkeep.{perform_cleanup, is_live}

-- One schema at least is kept, even by a cache of size 0.
pub record Inv (cm : ContextManager) : Type 0 where
  pub schemas : length cm.schema_cache ≤ suc (cm.config.max_connections_cache - 1)
  pub histories : Every (λ h. length h.queries ≤ cm.config.max_history_size) cm.history_buffer
  pub contexts : Every IsBounded cm.user_context_cache

cache_schema-Inv :
    (cm : ContextManager) (now id : ℕ) (schema : SchemaInfo)
    → Inv cm
    → Inv (cache_schema cm now id schema)
unfolding cache_schema
cache_schema-Inv cm now id schema h = record {
  schemas =
      let kept = make_room cm.config.max_connections_cache cm.schema_cache in
      omega (
        arith,
        length-insert-le id (record schema { last_updated = now }) kept,
        make_room-length cm.config.max_connections_cache cm.schema_cache h.schemas,
      );
  histories = h.histories;
  contexts = h.contexts;
}

-- What is known of a user is bounded, and so is a new context.
seen :
    (now user_id : ℕ) (cm : ContextManager)
    → Inv cm
    → IsBounded (record (value_or (new_user_context now) (lookup user_id cm.user_context_cache)) {
      last_active = now;
    })
unfolding new_user_context
seen now user_id cm h =
    touched
      (lookup-Every IsBounded (new_user_context now) user_id cm.user_context_cache fresh h.contexts)
  where
    fresh : IsBounded (new_user_context now)
    fresh = record {
      tables = record { bounded = omega arith; distinct = tt };
      patterns = record { bounded = omega arith; distinct = tt };
    }

    touched : {ctx : UserContext} → IsBounded ctx → IsBounded (record ctx { last_active = now })
    touched b = record { tables = b.tables; patterns = b.patterns }

update_user_context-Inv :
    (u : Unicode) (cm : ContextManager) (now user_id : ℕ) (query sql : Bytes)
    → Inv cm
    → Inv (update_user_context u cm now user_id query sql)
unfolding update_user_context
update_user_context-Inv u cm now user_id query sql h = record {
  schemas = h.schemas;
  histories = h.histories;
  contexts =
      insert-Every IsBounded user_id _ cm.user_context_cache
        (analyze_query_pattern-IsBounded u query sql _ (seen now user_id cm h)) h.contexts;
}

add_query_history-Inv :
    (u : Unicode) (cm : ContextManager) (now user_id : ℕ) (query sql : Bytes) (success : Bool)
    → Inv cm
    → Inv (add_query_history u cm now user_id query sql success)
unfolding add_query_history add_record
add_query_history-Inv u cm now user_id query sql success h =
    if_holds Inv success (update_user_context-Inv u _ now user_id query sql added) added
  where
    added : Inv (record cm {
      history_buffer =
          insert user_id
            (add_record cm.config.max_history_size
              (record { query = query; sql = sql; success = success; timestamp = now })
              (value_or (new_history now) (lookup user_id cm.history_buffer)))
            cm.history_buffer;
    })
    added = record {
      schemas = h.schemas;
      histories =
          insert-Every (λ h. length h.queries ≤ cm.config.max_history_size) user_id _
            cm.history_buffer (length-push-le cm.config.max_history_size _ _) h.histories;
      contexts = h.contexts;
    }

get_recent_history-Inv :
    (cm : ContextManager) (now user_id limit : ℕ)
    → Inv cm
    → Inv (get_recent_history cm now user_id limit).1
unfolding get_recent_history new_history
get_recent_history-Inv cm now user_id limit h =
    elim (Option-cases (lookup user_id cm.history_buffer)) [
      | inl unknown ↦
          let same : (get_recent_history cm now user_id limit).1 ≡ cm =
            rw (get_recent_history, unknown) refl in
          subst Inv (sym same) h
      | inr (history, found) ↦
          let touched : UserQueryHistory = record history { last_access = now } in
          let read : ContextManager = record cm {
            history_buffer = insert user_id touched cm.history_buffer;
          } in
          let same : (get_recent_history cm now user_id limit).1 ≡ read =
            rw (get_recent_history, found) refl in
          subst Inv (sym same) (record {
            schemas = h.schemas;
            histories =
                insert-Every (λ g. length g.queries ≤ cm.config.max_history_size) user_id touched
                  cm.history_buffer (fits history found) h.histories;
            contexts = h.contexts;
          })
    ]
  where
    fits :
        (history : UserQueryHistory)
        → lookup user_id cm.history_buffer ≡ some history
        → length history.queries ≤ cm.config.max_history_size
    fits history found =
        subst (λ o. length (value_or (new_history now) o).queries ≤ cm.config.max_history_size)
          found
          (lookup-Every (λ g. length g.queries ≤ cm.config.max_history_size) (new_history now)
            user_id cm.history_buffer (omega arith) h.histories)

get_user_context-Inv :
    (cm : ContextManager) (now user_id : ℕ) → Inv cm → Inv (get_user_context cm now user_id).1
unfolding get_user_context
get_user_context-Inv cm now user_id h = record {
  schemas = h.schemas;
  histories = h.histories;
  contexts =
      insert-Every IsBounded user_id _ cm.user_context_cache (seen now user_id cm h) h.contexts;
}

perform_cleanup-Inv : (cm : ContextManager) (now : ℕ) → Inv cm → Inv (perform_cleanup cm now)
unfolding perform_cleanup
perform_cleanup-Inv cm now h = record {
  schemas = omega (
    arith,
    h.schemas,
    length-keep-le (λ id schema. is_live cm.config.cache_ttl now schema.last_updated)
        cm.schema_cache,
  );
  histories =
      keep-Every (λ g. length g.queries ≤ cm.config.max_history_size) _ cm.history_buffer
        h.histories;
  contexts = keep-Every IsBounded _ cm.user_context_cache h.contexts;
}

step-Inv : (u : Unicode) (c : Call) (cm : ContextManager) → Inv cm → Inv (step u c cm)
unfolding step
step-Inv u (caching now id schema) cm h = cache_schema-Inv cm now id schema h
step-Inv u (adding now user_id query sql success) cm h =
    add_query_history-Inv u cm now user_id query sql success h
step-Inv u (reading_history now user_id limit) cm h = get_recent_history-Inv cm now user_id limit h
step-Inv u (reading_context now user_id) cm h = get_user_context-Inv cm now user_id h
step-Inv u (cleaning now) cm h = perform_cleanup-Inv cm now h

run-kept : (u : Unicode) (calls : List Call) (cm : ContextManager) → Inv cm → Inv (run u calls cm)
run-kept u [] cm h = h
run-kept u (c ∷ calls) cm h = run-kept u calls (step u c cm) (step-Inv u c cm h)

-- After any calls of a new manager, whatever their times, there are no more schemas than the configuration
-- admits, or one; no history is longer than it admits; and of each user at most ten tables and five
-- patterns are remembered, none of them twice.
pub run-Bounded :
    (u : Unicode) (config : ContextConfig) (calls : List Call)
    → Inv (run u calls (new_context_manager (some config)))
unfolding new_context_manager
run-Bounded u config calls =
    run-kept u calls _ (record { schemas = omega arith; histories = tt; contexts = tt })
