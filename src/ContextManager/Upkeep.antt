-- ===== src/ContextManager/Upkeep.antt =====
-- internal/ai/context_manager.go: `performCleanup`, `GetStats` and the parts of a context.
use chat2sql.Prelude.{
  ℕ, ◌+◌, Bool, not, List, [], ◌∷◌, ◌++◌, map, Bytes, codes, ltb, length, Dict, text_key, insert,
  keep,
}
use chat2sql.ContextManager.State.{ContextManager, SchemaInfo, UserContext}

-- Not before the time that lies a TTL back.
abbrev pub is_live : ℕ → ℕ → ℕ → Bool
is_live ttl now t = not (ltb (t + ttl) now)

unfoldable pub perform_cleanup : ContextManager → ℕ → ContextManager
unfolding keep
perform_cleanup cm now = record cm {
  schema_cache =
      keep (λ id schema. is_live cm.config.cache_ttl now schema.last_updated) cm.schema_cache;
  history_buffer =
      keep (λ id history. is_live cm.config.cache_ttl now history.last_access) cm.history_buffer;
  user_context_cache =
      keep (λ id ctx. is_live cm.config.cache_ttl now ctx.last_active) cm.user_context_cache;
}

pub record Stats : Type 0 where
  pub schema_cache_size : ℕ
  pub history_buffer_size : ℕ
  pub user_context_size : ℕ

unfoldable pub get_stats : ContextManager → Stats
get_stats cm = record {
  schema_cache_size = length cm.schema_cache;
  history_buffer_size = length cm.history_buffer;
  user_context_size = length cm.user_context_cache;
}

-- `extractTableNames`
unfoldable pub extract_table_names : SchemaInfo → List Bytes
extract_table_names schema = map (λ (name, table). name) schema.tables

-- The texts of a list in brackets, as `%v` prints them.
unfoldable pub join_blank : List Bytes → Bytes
join_blank [] = []
join_blank (s ∷ []) = s
join_blank (s ∷ t ∷ slice) = s ++ b' ' ∷ join_blank (t ∷ slice)

unfoldable pub merge_settings : Dict Bytes Bytes → Dict Bytes Bytes → Dict Bytes Bytes
unfolding insert
merge_settings [] m = m
merge_settings ((k, v) ∷ settings) m = merge_settings settings (insert k v m)

-- A setting replaces a field of the same name.
unfoldable pub build_user_context_map : UserContext → Dict Bytes Bytes
unfolding merge_settings join_blank
build_user_context_map ctx = merge_settings ctx.custom_settings (
    (codes "preferred_lang", ctx.preferred_lang)
    ∷ (codes "frequent_tables", b'[' ∷ join_blank ctx.frequent_tables ++ b']' ∷ [])
    ∷ [])
