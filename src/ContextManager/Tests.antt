-- ===== src/ContextManager/Tests.antt =====
-- internal/ai/context_manager.go: runs of the model.
use chat2sql.Prelude.{
  ℕ, ◌-◌, ◌<◌, ◌≡◌, ◌≢◌, refl, Bool, true, false, none, some, List, [], ◌∷◌, codes, utf8,
  if◌then◌else◌, ltb, length, take, reverse, newest, Unicode, number_key, lookup, insert, keep,
  to_lower, to_upper, trim_space, fields, words, trim, trim_left, contains, has_prefix, same_bytes,
}
use chat2sql.ContextManager.Building.{validate_prompt_context}
use chat2sql.ContextManager.Cached.{get_schema-cache_schema}
use chat2sql.ContextManager.History.{recent_from, get_recent_history}
use chat2sql.ContextManager.Invariant.{Inv, run-Bounded}
use chat2sql.ContextManager.Patterns.{
  contains_string, remember, name_in, names_after, extract_table_names_from_sql,
  identify_query_pattern, contains_chinese,
}
use chat2sql.ContextManager.Recent.{
  Added, add_all, queries_for, successes, get_recent_history-add_all,
}
use chat2sql.ContextManager.Runs.{Call, caching, adding, reading_history, cleaning, run}
use chat2sql.ContextManager.Schemas.{oldest_from, evict_oldest, make_room, cache_schema, get_schema}
use chat2sql.ContextManager.State.{ContextConfig, SchemaInfo, QueryHistory, new_context_manager}
use chat2sql.ContextManager.Upkeep.{join_blank}
use chat2sql.ContextManager.Printing.{format_schema_for_prompt, format_tables}

-- Every text is ASCII here.
abbrev ascii : Unicode
ascii = record {
  upper = λ s. s;
  lower = λ s. s;
  trim_spaces = λ s. s;
  split_fields = λ s. s ∷ [];
  folds_equal = λ s t. false;
  unprintable = λ s. false;
}

abbrev small : ContextConfig
small = record {
  max_history_size = 2;
  cache_ttl = 100;
  cleanup_interval = 10;
  max_connections_cache = 2;
  enable_prewarming = true;
}

abbrev schema : SchemaInfo
schema = record {
  database_name = codes "d";
  tables = [];
  relationships = [];
  indexes = [];
  last_updated = 0;
  version = [];
}

abbrev asked : ℕ → Bool → QueryHistory
asked t success = record {
  query = codes "q";
  sql = codes "select a from b";
  success = success;
  timestamp = t;
}

abbrev added : ℕ → ℕ → Bool → Added
added user t success = record { user_id = user; entry = asked t success }

abbrev adds : List Added
adds = added 7 1 true ∷ added 8 2 true ∷ added 7 3 false ∷ added 7 4 true ∷ []

get_recent_history-add_all_example :
    (get_recent_history (add_all ascii adds (new_context_manager (some small))) 9 7 5).0
    ≡ take 5 (successes (reverse (newest 2 (queries_for 7 adds))))
get_recent_history-add_all_example = get_recent_history-add_all ascii small adds 9 7 5

abbrev calls : List Call
calls =
    caching 1 1 schema
    ∷ caching 2 2 schema
    ∷ caching 3 3 schema
    ∷ adding 4 7 (codes "q") (codes "select a from b") true
    ∷ reading_history 5 7 5
    ∷ cleaning 6
    ∷ []

run-Bounded_example : Inv (run ascii calls (new_context_manager (some small)))
run-Bounded_example = run-Bounded ascii small calls

get_schema-cache_schema_example :
    (get_schema (cache_schema (new_context_manager (some small)) 5 1 schema) 50 1
      ≡ (if ltb 100 (50 - 5) then none else some (record schema { last_updated = 5 })))
    × ((other : ℕ)
        → other ≢ 1
        → length (new_context_manager (some small)).schema_cache < 2
        → get_schema (cache_schema (new_context_manager (some small)) 5 1 schema) 50 other
          ≡ get_schema (new_context_manager (some small)) 50 other)
unfolding new_context_manager
get_schema-cache_schema_example =
    get_schema-cache_schema (new_context_manager (some small)) 5 50 1 schema

-- A full cache that is given a schema it holds already loses another one.
program : Unit {0}
unfolding new_context_manager cache_schema make_room evict_oldest oldest_from keep insert get_schema
    lookup recent_from extract_table_names_from_sql names_after name_in to_lower fields words trim
    trim_left contains has_prefix same_bytes identify_query_pattern utf8 contains_chinese remember
    contains_string join_blank format_schema_for_prompt format_tables validate_prompt_context
    to_upper trim_space
program =
    let cm = cache_schema (cache_schema (new_context_manager (some small)) 1 1 schema) 2 2 schema in
    let again = cache_schema cm 3 2 schema in
    let lost : get_schema again 4 1 ≡ none = refl in
    let there : get_schema cm 4 1 ≡ some (record schema { last_updated = 1 }) = refl in
    let names : extract_table_names_from_sql ascii (codes "SELECT x FROM users u JOIN orders, t")
        ≡ codes "users" ∷ codes "orders" ∷ [] =
      refl in
    let pattern : identify_query_pattern ascii (codes "total") (codes "select count(*) from t")
        ≡ codes "aggregation_queries" =
      refl in
    let chinese : contains_chinese (utf8 "top 前") ≡ true = refl in
    let english : contains_chinese (utf8 "top ten") ≡ false = refl in
    let printed : format_schema_for_prompt schema ≡ utf8 "数据库: d\n表结构信息:\n\n" = refl in
    let refused : validate_prompt_context ascii (codes "orders created today") ≡ false = refl in
    let cut : remember 2 (codes "c") (codes "a" ∷ codes "b" ∷ []) ≡ codes "b" ∷ codes "c" ∷ [] =
      refl in
    tt
