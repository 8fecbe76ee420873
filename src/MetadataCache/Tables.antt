-- ===== src/MetadataCache/Tables.antt =====
-- internal/service/metadata_cache.go: `GetTableSummary`, `buildTableSummary` and
-- `prefetchRelatedTables`. A goroutine that a call starts is a task in its result.
use chat2sql.Prelude.{
  ℕ, ◌+◌, not, ◌&&◌, Option, none, some, List, [], ◌∷◌, ◌++◌, map, Bytes, codes, leb, lookup,
  insert, if◌then◌else◌, text_key,
}
use chat2sql.MetadataCache.State.{
  MetadataCache, CachedTableSummary, CachedColumn, SchemaMetadata, SchemaRepository, Result, ok,
  err, table_structure_failed, table_missing, is_expired, Task, prefetch_tables, load_summary,
  table_key,
}

abbrev optional : (Bytes → Bytes) → Option Bytes → Bytes
optional f none = []
optional f (some s) = f s

abbrev newline : Bytes
newline = 10 ∷ []

-- One column's line of the summary.
unfoldable pub column_line : SchemaMetadata → Bytes
column_line m =
    codes "  - "
    ++ m.column_name
    ++ codes " ("
    ++ m.data_type
    ++ codes ")"
    ++ (if m.is_primary_key then codes " [PK]" else [])
    ++ (if m.is_foreign_key
        then optional (λ t. codes " [FK->" ++ t ++ codes "]") m.foreign_table
        else [])
    ++ (if not m.is_nullable then codes " [NOT NULL]" else [])
    ++ optional (λ c. codes " // " ++ c) m.column_comment
    ++ newline

unfoldable pub column_lines : List (Option SchemaMetadata) → Bytes
unfolding column_line
column_lines [] = []
column_lines (none ∷ ms) = column_lines ms
column_lines (some m ∷ ms) = column_line m ++ column_lines ms

-- The UTF-8 bytes of the word that begins the summary.
abbrev table_word : Bytes
table_word = 0xE8 ∷ 0xA1 ∷ 0xA8 ∷ 32 ∷ []

unfoldable pub build_table_summary : List (Option SchemaMetadata) → Bytes
unfolding column_lines
build_table_summary [] = []
build_table_summary (none ∷ ms) = []
build_table_summary (some first ∷ ms) =
    table_word
    ++ first.schema_name
    ++ codes "."
    ++ first.table_name
    ++ optional (λ c. codes " (" ++ c ++ codes ")") first.table_comment
    ++ codes ":"
    ++ newline
    ++ column_lines (some first ∷ ms)

abbrev cached_column : SchemaMetadata → CachedColumn
cached_column m = record {
  column_name = m.column_name;
  data_type = m.data_type;
  is_nullable = m.is_nullable;
  is_primary_key = m.is_primary_key;
  is_foreign_key = m.is_foreign_key;
  foreign_table = m.foreign_table;
  column_comment = m.column_comment;
}

unfoldable pub cached_columns : List (Option SchemaMetadata) → List CachedColumn
cached_columns [] = []
cached_columns (none ∷ ms) = cached_columns ms
cached_columns (some m ∷ ms) = cached_column m ∷ cached_columns ms

abbrev pub Summary : Type 0
Summary = Bytes × List CachedColumn

abbrev pub Answer : Type 0
Answer = MetadataCache × Result Summary × List Task

unfoldable pub fresh_table : MetadataCache → ℕ → Bytes → Option CachedTableSummary
unfolding lookup
fresh_table mc now key = elim (lookup key mc.table_summaries) [
  | none ↦ none
  | some cached ↦ if is_expired now cached.last_updated cached.ttl then none else some cached
]

abbrev pub count_query : MetadataCache → MetadataCache
count_query mc = record mc {
  stats = record (mc.stats) { total_queries = mc.stats.total_queries + 1 };
}

unfoldable pub table_hit : MetadataCache → Bytes → CachedTableSummary → MetadataCache
table_hit mc key cached = record mc {
  table_summaries =
      insert key (record cached { access_count = cached.access_count + 1 }) mc.table_summaries;
  stats = record (mc.stats) { table_hits = mc.stats.table_hits + 1 };
}

-- A table that is read often has the tables of its relations fetched ahead.
unfoldable pub prefetch_tasks : MetadataCache → ℕ → ℕ → Bytes → Bytes → List Task
prefetch_tasks mc accesses id schema table =
    if mc.enable_prefetch && leb mc.prefetch_threshold accesses
    then prefetch_tables id schema table ∷ []
    else []

unfoldable pub table_entry :
    ℕ → ℕ → Bytes → Bytes → ℕ → List (Option SchemaMetadata) → CachedTableSummary
unfolding build_table_summary cached_columns
table_entry now id schema table ttl rows = record {
  connection_id = id;
  schema_name = schema;
  table_name = table;
  summary = build_table_summary rows;
  columns = cached_columns rows;
  last_updated = now;
  access_count = 1;
  ttl = ttl;
}

unfoldable pub store_table : MetadataCache → CachedTableSummary → MetadataCache
store_table mc entry = record mc {
  table_summaries =
      insert (table_key entry.connection_id entry.schema_name entry.table_name) entry
        mc.table_summaries;
}

abbrev pub summary_of : CachedTableSummary → Summary
summary_of entry = (entry.summary, entry.columns)

unfoldable pub store_rows :
    ℕ → ℕ → Bytes → Bytes → List (Option SchemaMetadata) → MetadataCache → Answer
store_rows now id schema table [] mc = (mc, err (table_missing schema table), [])
store_rows now id schema table (row ∷ rows) mc =
    let entry = table_entry now id schema table mc.default_ttl (row ∷ rows) in
    (store_table mc entry, ok (summary_of entry), [])

abbrev pub table_missed : MetadataCache → MetadataCache
table_missed mc = record mc {
  stats = record (mc.stats) { table_misses = mc.stats.table_misses + 1 };
}

unfoldable pub load_table : SchemaRepository → ℕ → ℕ → Bytes → Bytes → MetadataCache → Answer
load_table repo now id schema table mc =
    let missed = table_missed mc in
    elim (repo.get_table_structure id schema table) [
      | none ↦ (missed, err table_structure_failed, [])
      | some rows ↦ store_rows now id schema table rows missed
    ]

unfoldable pub get_table_summary : SchemaRepository → ℕ → ℕ → Bytes → Bytes → MetadataCache → Answer
get_table_summary repo now id schema table mc =
    elim (fresh_table mc now (table_key id schema table)) [
      | some cached ↦ (
        table_hit (count_query mc) (table_key id schema table) cached,
        ok (summary_of cached),
        prefetch_tasks mc (cached.access_count + 1) id schema table,
      )
      | none ↦ load_table repo now id schema table (count_query mc)
    ]

-- `prefetchRelatedTables`: one task for each related table.
unfoldable pub prefetch_related_tables :
    SchemaRepository → ℕ → Bytes → Bytes → MetadataCache → MetadataCache × List Task
prefetch_related_tables repo id schema table mc = (
  record mc {
    stats = record (mc.stats) { prefetch_operations = mc.stats.prefetch_operations + 1 };
  },
  elim (repo.get_related_tables id table) [
    | none ↦ []
    | some related ↦ map (λ t. load_summary id schema t) related
  ],
)
