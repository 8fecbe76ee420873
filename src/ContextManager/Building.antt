-- ===== src/ContextManager/Building.antt =====
-- internal/ai/context_manager.go: `BuildQueryContext`, with `ValidatePromptContext` of prompts.go.
use chat2sql.Prelude.{
  ℕ, Bool, not, Option, none, some, List, [], ◌∷◌, Bytes, if◌then◌else◌, is_empty, Dict, codes,
  ◌&&◌, any, contains, Unicode, to_upper, trim_space,
}
use chat2sql.ContextManager.History.{get_recent_history, get_user_context}
use chat2sql.ContextManager.Printing.{format_schema_for_prompt}
use chat2sql.ContextManager.Schemas.{get_schema}
use chat2sql.ContextManager.State.{ContextManager, QueryHistory}
use chat2sql.ContextManager.Upkeep.{extract_table_names, build_user_context_map}

pub record QueryContext : Type 0 where
  pub user_query : Bytes
  pub database_schema : Bytes
  pub table_names : List Bytes
  pub query_history : List QueryHistory
  pub user_context : Dict Bytes Bytes
  pub timestamp : ℕ

-- The words and marks that no question may hold, as parts of words too.
abbrev pub dangerous_keywords : List Bytes
dangerous_keywords =
    codes "DELETE"
    ∷ codes "UPDATE"
    ∷ codes "INSERT"
    ∷ codes "DROP"
    ∷ codes "CREATE"
    ∷ codes "ALTER"
    ∷ codes "TRUNCATE"
    ∷ codes "EXEC"
    ∷ codes "EXECUTE"
    ∷ codes "UNION"
    ∷ codes "--"
    ∷ codes "/*"
    ∷ codes "*/"
    ∷ []

unfoldable pub validate_prompt_context : Unicode → Bytes → Bool
unfolding trim_space to_upper contains
validate_prompt_context u user_query =
    not (is_empty (trim_space u user_query))
    && not (any (λ keyword. contains keyword (to_upper u user_query)) dangerous_keywords)

unfoldable pub build_query_context :
    Unicode → ContextManager → ℕ → ℕ → ℕ → Bytes → Option (QueryContext × ContextManager)
unfolding validate_prompt_context format_schema_for_prompt get_schema get_recent_history
    get_user_context extract_table_names build_user_context_map
build_query_context u cm now connection_id user_id user_query =
    if is_empty user_query
    then none
    else if not (validate_prompt_context u user_query)
    then none
    else let schema = get_schema cm now connection_id in
      let (history, read) = get_recent_history cm now user_id 5 in
      let (ctx, known) = get_user_context read now user_id in
      some (
        record {
          user_query = user_query;
          database_schema = elim schema [ none ↦ [] | some s ↦ format_schema_for_prompt s ];
          table_names = elim schema [ none ↦ [] | some s ↦ extract_table_names s ];
          query_history = history;
          user_context = build_user_context_map ctx;
          timestamp = now;
        },
        known,
      )
