-- ===== src/MetadataCache/Outcomes.antt =====
-- internal/service/metadata_cache.go: the ways that a call of `GetConnectionSchemas`,
-- `GetTableSummary` and `GetQueryPattern` ends.
use chat2sql.Prelude.{
  ℕ, List, [], ◌∷◌, Bytes, number_key, text_key, Option-cases, inl, inr, Unicode,
}
use chat2sql.MetadataCache.Patterns.{
  Iteration, get_query_pattern, fresh_pattern, pattern_hit, pattern_miss,
}
use chat2sql.MetadataCache.Schemas
use chat2sql.MetadataCache.Tables
use chat2sql.MetadataCache.Schemas.{
  schema_missed, get_connection_schemas, fresh_schema, schema_hit, load_schemas, store_schemas,
}
use chat2sql.MetadataCache.State.{
  MetadataCache, SchemaRepository, CachedTableSummary, CachedConnectionSchema, CachedQueryPattern,
  table_key, pattern_key,
}
use chat2sql.MetadataCache.Tables.{
  table_missed, get_table_summary, fresh_table, table_hit, load_table, store_rows, store_table,
  prefetch_related_tables,
}

module _ (P : MetadataCache → Type 0) (repo : SchemaRepository) (now id : ℕ)
    (mc : MetadataCache) where
  -- The three ways that a call for the schemas ends.
  pub schemas_cases :
      ((cached : CachedConnectionSchema) → P (schema_hit (Schemas.count_query mc) id cached))
      → P (schema_missed (Schemas.count_query mc))
      → ((xs : List Bytes)
          → P (store_schemas repo now id xs (schema_missed (Schemas.count_query mc))))
      → P (get_connection_schemas repo now id mc).0
  unfolding get_connection_schemas load_schemas
  schemas_cases hit failed loaded = elim (Option-cases (fresh_schema mc now id)) [
    | inr (cached, e) ↦ rw (e, get_connection_schemas) (hit cached)
    | inl e ↦ elim (Option-cases (repo.list_schemas id)) [
      | inl f ↦ rw (e, get_connection_schemas, f, load_schemas) failed
      | inr (xs, f) ↦ rw (e, get_connection_schemas, f, load_schemas) (loaded xs)
    ]
  ]

module _ (P : MetadataCache → Type 0) (repo : SchemaRepository) (now id : ℕ) (schema name : Bytes)
    (mc : MetadataCache) where
  -- The four ways that a call for a table ends.
  pub table_cases :
      ((cached : CachedTableSummary)
        → P (table_hit (Tables.count_query mc) (table_key id schema name) cached))
      → P (table_missed (Tables.count_query mc))
      → ((entry : CachedTableSummary)
          → P (store_table (table_missed (Tables.count_query mc)) entry))
      → P (get_table_summary repo now id schema name mc).0
  unfolding get_table_summary load_table store_rows
  table_cases hit failed loaded =
      elim (Option-cases (fresh_table mc now (table_key id schema name))) [
        | inr (cached, e) ↦ rw (e, get_table_summary) (hit cached)
        | inl e ↦ elim (Option-cases (repo.get_table_structure id schema name)) [
          | inl f ↦ rw (e, get_table_summary, f, load_table) failed
          | inr ([], f) ↦ rw (e, get_table_summary, f, load_table) failed
          | inr (row ∷ rows, f) ↦ rw (e, get_table_summary, f, load_table) (loaded _)
        ]
      ]

module _ (P : MetadataCache → Type 0) (u : Unicode) (iterate : Iteration) (now id : ℕ)
    (text : Bytes) (mc : MetadataCache) where
  -- The two ways that a call for a pattern ends.
  pub pattern_cases :
      ((cached : CachedQueryPattern) → P (pattern_hit mc (pattern_key id text) cached).0)
      → P (pattern_miss u iterate now id text mc).0
      → P (get_query_pattern u iterate now id text mc).0
  unfolding get_query_pattern
  pattern_cases hit missed = elim (Option-cases (fresh_pattern mc now (pattern_key id text))) [
    | inr (cached, e) ↦ rw (e, get_query_pattern) (hit cached)
    | inl e ↦ rw (e, get_query_pattern) missed
  ]
