-- ===== src/MetadataCache/Tests.antt =====
-- Runs of internal/service/metadata_cache.go on a small repository.
use chat2sql.Prelude.{
  ◌≡◌, ℕ, refl, true, false, none, some, List, [], ◌∷◌, ◌++◌, codes, Unicode, lookup, insert, keep,
  has_prefix, same_bytes, decimal, if◌then◌else◌, ◌==◌, number_key, text_key,
}
use chat2sql.MetadataCache.State.{
  MetadataCache, SchemaRepository, SchemaMetadata, default_config, new_metadata_cache, start, stop,
  table_key, pattern_key, get_cache_size, is_expired, ok,
}
use chat2sql.MetadataCache.Schemas.{
  get_connection_schemas, fresh_schema, load_schemas, store_schemas, schema_hit, schema_entry,
  schemas_answer, get_connection_schemas_again,
}
use chat2sql.MetadataCache.Tables.{
  get_table_summary, fresh_table, load_table, store_rows, store_table, table_hit,
  build_table_summary, table_entry, prefetch_related_tables,
}
use chat2sql.MetadataCache.Prewarm.{prewarm_cache, prewarm_from}
use chat2sql.MetadataCache.Patterns.{
  get_query_pattern, pattern_hit, pattern_miss, fresh_pattern, find_relevant_tables,
}
use chat2sql.MetadataCache.Upkeep.{invalidate_connection, perform_cleanup}
use chat2sql.MetadataCache.Keys.{table_key-injective, lookup-invalidate_connection}
use chat2sql.MetadataCache.Reads.{
  get_table_summary_again, get_table_summary_collision, summary_of_rows, table_answer,
}
use chat2sql.MetadataCache.Cleanup.{lookup-perform_cleanup, unless}
use chat2sql.MetadataCache.Runs.{
  Call, Moment, step, run, Inv, schemas, table, related, pattern, invalidates, prewarms, starts,
}
use chat2sql.MetadataCache.Invariant.{run-Inv}

abbrev ascii_only : Unicode
ascii_only = record {
  upper = λ s. s;
  lower = λ s. s;
  trim_spaces = λ s. s;
  split_fields = λ s. s ∷ [];
  folds_equal = λ s t. false;
  unprintable = λ s. false;
}

abbrev column : SchemaMetadata
column = record {
  schema_name = codes "public";
  table_name = codes "users";
  table_comment = none;
  column_name = codes "id";
  data_type = codes "bigint";
  is_nullable = false;
  is_primary_key = true;
  is_foreign_key = false;
  foreign_table = none;
  column_comment = none;
}

abbrev repository : SchemaRepository
repository = record {
  list_schemas = λ id. some (codes "public" ∷ []);
  list_tables = λ id schema. some (codes "users" ∷ codes "orders" ∷ []);
  get_table_structure = λ id schema table. some (some column ∷ []);
  get_related_tables = λ id table. some (codes "orders" ∷ []);
}

abbrev broken : SchemaRepository
broken = record {
  list_schemas = λ id. none;
  list_tables = λ id schema. none;
  get_table_structure = λ id schema table. none;
  get_related_tables = λ id table. none;
}

abbrev empty : MetadataCache
empty = new_metadata_cache default_config

program : Unit {0}
unfolding get_connection_schemas fresh_schema load_schemas store_schemas schema_hit
    get_table_summary fresh_table load_table store_rows store_table table_hit build_table_summary
    get_query_pattern pattern_hit pattern_miss fresh_pattern find_relevant_tables
    invalidate_connection perform_cleanup new_metadata_cache prefetch_related_tables start stop
    get_cache_size table_key pattern_key prewarm_cache prewarm_from lookup insert keep has_prefix
    run step schema_entry same_bytes decimal table_entry
program = tt

abbrev calls : List (Moment × Call)
calls =
    (record { repo = repository; now = 0 }, schemas 1)
    ∷ (record { repo = repository; now = 1 }, table 1 (codes "public") (codes "users"))
    ∷ (record { repo = broken; now = 2 }, schemas 1)
    ∷ (record { repo = broken; now = 3 }, schemas 2)
    ∷ (record { repo = repository; now = 4 }, pattern 1 (codes "all users"))
    ∷ (record { repo = repository; now = 5 }, related 1 (codes "public") (codes "users"))
    ∷ (record { repo = repository; now = 6 }, table 1 (codes "public") (codes "users"))
    ∷ (record { repo = broken; now = 7 }, prewarms 1)
    ∷ (record { repo = repository; now = 8 }, starts)
    ∷ (record { repo = repository; now = 9 }, invalidates 1)
    ∷ []

abbrev ran : MetadataCache
ran = run ascii_only (λ ts. ts) empty calls

counters :
    (ran.stats.total_queries ≡ 6)
    × (ran.stats.schema_hits ≡ 2)
    × (ran.stats.schema_misses ≡ 2)
    × (ran.stats.table_hits ≡ 1)
    × (ran.stats.table_misses ≡ 1)
    × (get_cache_size ran ≡ 0)
unfolding program
counters = (refl, refl, refl, refl, refl, refl)

suggestion :
    (get_query_pattern ascii_only
      (λ ts. ts)
      1
      1
      (codes "show Users")
      (get_connection_schemas repository 0 1 empty).0).1.relevant_tables
    ≡ codes "users" ∷ []
unfolding program
suggestion = refl

run-Inv_example : Inv (run ascii_only (λ ts. ts) (new_metadata_cache default_config) calls)
run-Inv_example = run-Inv ascii_only (λ ts. ts) default_config calls

no_schema : fresh_schema empty 3 1 ≡ none
unfolding program
no_schema = refl

get_connection_schemas_again_example :
    (get_connection_schemas broken 9 1 (get_connection_schemas repository 3 1 empty).0).1 ≡ (
      if is_expired 9 3 empty.default_ttl
      then schemas_answer broken 1
      else ok (codes "public" ∷ []))
get_connection_schemas_again_example =
    get_connection_schemas_again repository broken 3 9 1 empty (codes "public" ∷ []) no_schema refl

no_table : fresh_table empty 3 (table_key 1 (codes "public") (codes "users")) ≡ none
unfolding program
no_table = refl

no_table_in : fresh_table empty 3 (table_key 1 (codes "a" ++ b':' ∷ codes "b") (codes "c")) ≡ none
unfolding program
no_table_in = refl

within_ttl : is_expired 9 3 empty.default_ttl ≡ false
unfolding program
within_ttl = refl

get_table_summary_again_example :
    (get_table_summary broken 9 1
      (codes "public")
      (codes "users")
      (get_table_summary repository 3 1 (codes "public") (codes "users") empty).0).1
    ≡ (if is_expired 9 3 empty.default_ttl
        then table_answer broken 1 (codes "public") (codes "users")
        else ok (summary_of_rows (some column ∷ [])))
get_table_summary_again_example =
    get_table_summary_again repository broken 3 9 1 (codes "public") (codes "users") empty
      (some column) [] no_table refl

get_table_summary_collision_example :
    (get_table_summary broken 9 1
      (codes "a")
      (codes "b" ++ b':' ∷ codes "c")
      (get_table_summary repository 3 1 (codes "a" ++ b':' ∷ codes "b") (codes "c") empty).0).1
    ≡ ok (summary_of_rows (some column ∷ []))
get_table_summary_collision_example =
    get_table_summary_collision repository broken 3 9 1 (codes "a") (codes "b") (codes "c") empty
      (some column) [] no_table_in refl within_ttl

abbrev filled : MetadataCache
filled =
    (get_query_pattern ascii_only (λ ts. ts) 2 1 (codes "all users")
      (get_table_summary repository 1 1 (codes "public") (codes "users")
        (get_connection_schemas repository 0 1 empty).0).0).0

lookup-invalidate_connection_example :
    let mc' = invalidate_connection 1 filled in
    (lookup 1 mc'.connection_schemas
      ≡ (if 1 == 1 then none else lookup 1 filled.connection_schemas))
    × (lookup (table_key 1 (codes "public") (codes "users")) mc'.table_summaries ≡ (
        if 1 == 1
        then none
        else lookup (table_key 1 (codes "public") (codes "users")) filled.table_summaries))
    × (lookup (pattern_key 1 (codes "all users")) mc'.query_patterns ≡ (
        if 1 == 1 then none else lookup (pattern_key 1 (codes "all users")) filled.query_patterns))
lookup-invalidate_connection_example =
    lookup-invalidate_connection 1 1 (codes "public") (codes "users") (codes "all users") filled

abbrev filling : List (Moment × Call)
filling =
    (record { repo = repository; now = 0 }, schemas 1)
    ∷ (record { repo = repository; now = 1 }, table 1 (codes "public") (codes "users"))
    ∷ []

abbrev two_entries : MetadataCache
two_entries = run ascii_only (λ ts. ts) (new_metadata_cache default_config) filling

two_entries-Inv : Inv two_entries
two_entries-Inv = run-Inv ascii_only (λ ts. ts) default_config filling

abbrev later : ℕ
later = 1_800_000_000_001

lookup-perform_cleanup_example :
    let key = table_key 1 (codes "public") (codes "users") in
    let mc' = perform_cleanup later two_entries in
    (lookup 1 mc'.connection_schemas
      ≡ unless
          (λ v. is_expired later v.last_updated v.ttl)
          (lookup 1 two_entries.connection_schemas))
    × (lookup key mc'.table_summaries
        ≡ unless
            (λ v. is_expired later v.last_updated v.ttl)
            (lookup key two_entries.table_summaries))
    × (lookup [] mc'.query_patterns
        ≡ unless
            (λ v. is_expired later v.last_updated v.ttl)
            (lookup [] two_entries.query_patterns))
lookup-perform_cleanup_example =
    lookup-perform_cleanup later 1 (table_key 1 (codes "public") (codes "users")) [] two_entries
      two_entries-Inv.distinct_schemas two_entries-Inv.distinct_tables
      two_entries-Inv.distinct_patterns

abbrev seven : ℕ
seven = 7

table_key-injective_example :
    (seven ≡ seven) × (codes "public" ≡ codes "public") × (codes "users" ≡ codes "users")
table_key-injective_example =
    table_key-injective seven seven (codes "public") (codes "public") (codes "users")
      (codes "users") refl refl refl
