-- ===== src/MetadataCache/Runs.antt =====
-- internal/service/metadata_cache.go: any sequence of calls, the goroutines' and the cleanup's among
-- them.
use chat2sql.Prelude.{ℕ, ◌+◌, ◌≡◌, List, [], ◌∷◌, Bytes, Distinct, number_key, text_key, Unicode}
use chat2sql.MetadataCache.Patterns.{Iteration, get_query_pattern}
use chat2sql.MetadataCache.Schemas.{get_connection_schemas}
use chat2sql.MetadataCache.State.{MetadataCache, CacheStatistics, SchemaRepository, stop, start}
use chat2sql.MetadataCache.Tables.{get_table_summary, prefetch_related_tables}
use chat2sql.MetadataCache.Prewarm.{prewarm_cache}
use chat2sql.MetadataCache.Upkeep.{invalidate_connection, perform_cleanup}

-- `related` is a goroutine of `prefetchRelatedTables`; what it starts are further calls for tables.
pub data Call : Type 0 where
  schemas invalidates : ℕ → Call
  table related : ℕ → Bytes → Bytes → Call
  pattern : ℕ → Bytes → Call
  prewarms : ℕ → Call
  cleans starts stops : Call

-- The repository's answers and the clock at the time of a call.
pub record Moment : Type 0 where
  pub repo : SchemaRepository
  pub now : ℕ

module _ (u : Unicode) (iterate : Iteration) where
  unfoldable pub step : MetadataCache → Moment → Call → MetadataCache
  step mc m (schemas id) = (get_connection_schemas m.repo m.now id mc).0
  step mc m (invalidates id) = invalidate_connection id mc
  step mc m (table id schema name) = (get_table_summary m.repo m.now id schema name mc).0
  step mc m (related id schema name) = (prefetch_related_tables m.repo id schema name mc).0
  step mc m (pattern id text) = (get_query_pattern u iterate m.now id text mc).0
  step mc m cleans = perform_cleanup m.now mc
  step mc m (prewarms id) = (prewarm_cache m.repo m.now id mc).0
  step mc m starts = (start mc).0
  step mc m stops = stop mc

  unfoldable pub run : MetadataCache → List (Moment × Call) → MetadataCache
  unfolding step
  run mc [] = mc
  run mc ((m, c) ∷ calls) = run (step mc m c) calls

-- Every counted query is a hit or a miss, of a schema or of a table. Queries for patterns are not
-- counted among them.
abbrev pub IsCounted : CacheStatistics → Type 0
IsCounted s = s.total_queries ≡ s.schema_hits + s.schema_misses + s.table_hits + s.table_misses

pub record Inv (mc : MetadataCache) : Type 0 where
  pub counted : IsCounted mc.stats
  pub distinct_schemas : Distinct mc.connection_schemas
  pub distinct_tables : Distinct mc.table_summaries
  pub distinct_patterns : Distinct mc.query_patterns
