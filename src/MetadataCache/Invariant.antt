-- ===== src/MetadataCache/Invariant.antt =====
-- internal/service/metadata_cache.go: what every call keeps true of the cache.
use chat2sql.Prelude.{
  subst, sym, ℕ, refl, List, [], ◌∷◌, Bytes, arith, insert-Distinct, keep-Distinct, number_key,
  text_key, if_holds, Unicode,
}
use chat2sql.MetadataCache.Patterns.{Iteration, get_query_pattern, pattern_hit, pattern_miss}
use chat2sql.MetadataCache.Schemas.{get_connection_schemas, schema_hit, store_schemas}
use chat2sql.MetadataCache.State.{
  MetadataCache, MetadataCacheConfig, SchemaRepository, new_metadata_cache, stop, start, Result,
  table_key, pattern_key,
}
use chat2sql.MetadataCache.Tables.{
  get_table_summary, table_hit, store_table, prefetch_related_tables,
}
use chat2sql.MetadataCache.Upkeep.{invalidate_connection, perform_cleanup}
use chat2sql.MetadataCache.Runs.{
  Call, Moment, step, run, IsCounted, Inv, schemas, table, related, pattern, invalidates, cleans,
  stops, starts, prewarms,
}
use chat2sql.MetadataCache.Prewarm.{prewarm_cache-cache}
use chat2sql.MetadataCache.Outcomes.{schemas_cases, table_cases, pattern_cases}

module _ (mc : MetadataCache) (v : Inv mc) where
  schemas-Inv :
      (repo : SchemaRepository) (now id : ℕ) → Inv (get_connection_schemas repo now id mc).0
  unfolding schema_hit store_schemas
  schemas-Inv repo now id =
      schemas_cases Inv repo now id mc
        (λ cached. record {
          counted = omega arith;
          distinct_schemas = insert-Distinct id _ mc.connection_schemas v.distinct_schemas;
          distinct_tables = v.distinct_tables;
          distinct_patterns = v.distinct_patterns;
        })
        (record {
          counted = omega arith;
          distinct_schemas = v.distinct_schemas;
          distinct_tables = v.distinct_tables;
          distinct_patterns = v.distinct_patterns;
        })
        (λ xs. record {
          counted = omega arith;
          distinct_schemas = insert-Distinct id _ mc.connection_schemas v.distinct_schemas;
          distinct_tables = v.distinct_tables;
          distinct_patterns = v.distinct_patterns;
        })

  table-Inv :
      (repo : SchemaRepository) (now id : ℕ) (schema name : Bytes)
      → Inv (get_table_summary repo now id schema name mc).0
  unfolding table_hit store_table
  table-Inv repo now id schema name =
      table_cases Inv repo now id schema name mc
        (λ cached. record {
          counted = omega arith;
          distinct_schemas = v.distinct_schemas;
          distinct_tables =
              insert-Distinct (table_key id schema name) _ mc.table_summaries v.distinct_tables;
          distinct_patterns = v.distinct_patterns;
        })
        (record {
          counted = omega arith;
          distinct_schemas = v.distinct_schemas;
          distinct_tables = v.distinct_tables;
          distinct_patterns = v.distinct_patterns;
        })
        (λ entry. record {
          counted = omega arith;
          distinct_schemas = v.distinct_schemas;
          distinct_tables = insert-Distinct _ entry mc.table_summaries v.distinct_tables;
          distinct_patterns = v.distinct_patterns;
        })

  related-Inv :
      (repo : SchemaRepository) (id : ℕ) (schema name : Bytes)
      → Inv (prefetch_related_tables repo id schema name mc).0
  unfolding prefetch_related_tables
  related-Inv repo id schema name = record {
    counted = v.counted;
    distinct_schemas = v.distinct_schemas;
    distinct_tables = v.distinct_tables;
    distinct_patterns = v.distinct_patterns;
  }

  pattern-Inv :
      (u : Unicode) (iterate : Iteration) (now id : ℕ) (text : Bytes)
      → Inv (get_query_pattern u iterate now id text mc).0
  unfolding pattern_hit pattern_miss
  pattern-Inv u iterate now id text =
      pattern_cases Inv u iterate now id text mc
        (λ cached. record {
          counted = v.counted;
          distinct_schemas = v.distinct_schemas;
          distinct_tables = v.distinct_tables;
          distinct_patterns =
              insert-Distinct (pattern_key id text) _ mc.query_patterns v.distinct_patterns;
        })
        (record {
          counted = v.counted;
          distinct_schemas = v.distinct_schemas;
          distinct_tables = v.distinct_tables;
          distinct_patterns =
              insert-Distinct (pattern_key id text) _ mc.query_patterns v.distinct_patterns;
        })

  invalidate-Inv : (id : ℕ) → Inv (invalidate_connection id mc)
  unfolding invalidate_connection
  invalidate-Inv id = record {
    counted = v.counted;
    distinct_schemas = keep-Distinct _ mc.connection_schemas v.distinct_schemas;
    distinct_tables = keep-Distinct _ mc.table_summaries v.distinct_tables;
    distinct_patterns = keep-Distinct _ mc.query_patterns v.distinct_patterns;
  }

  cleanup-Inv : (now : ℕ) → Inv (perform_cleanup now mc)
  unfolding perform_cleanup
  cleanup-Inv now = record {
    counted = counts-same;
    distinct_schemas = keep-Distinct _ mc.connection_schemas v.distinct_schemas;
    distinct_tables = keep-Distinct _ mc.table_summaries v.distinct_tables;
    distinct_patterns = keep-Distinct _ mc.query_patterns v.distinct_patterns;
  }
    where
      counts-same : IsCounted (perform_cleanup now mc).stats
      counts-same = let c = v.counted in ground arith

  stop-Inv : Inv (stop mc)
  unfolding stop
  stop-Inv =
      if_holds Inv mc.is_running
        (record {
          counted = v.counted;
          distinct_schemas = tt;
          distinct_tables = tt;
          distinct_patterns = tt;
        })
        v

  start-Inv : Inv (start mc).0
  unfolding start
  start-Inv =
      if_holds (λ (x : MetadataCache × Result (Unit {0})). Inv x.0) mc.is_running v
        (record {
          counted = v.counted;
          distinct_schemas = v.distinct_schemas;
          distinct_tables = v.distinct_tables;
          distinct_patterns = v.distinct_patterns;
        })

module _ (u : Unicode) (iterate : Iteration) where
  -- Each call leaves the counters adding up and one entry for a key.
  pub step-Inv : (mc : MetadataCache) (m : Moment) (c : Call) → Inv mc → Inv (step u iterate mc m c)
  unfolding step
  step-Inv mc m (schemas id) v = schemas-Inv mc v m.repo m.now id
  step-Inv mc m (invalidates id) v = invalidate-Inv mc v id
  step-Inv mc m (table id schema name) v = table-Inv mc v m.repo m.now id schema name
  step-Inv mc m (related id schema name) v = related-Inv mc v m.repo id schema name
  step-Inv mc m (pattern id text) v = pattern-Inv mc v u iterate m.now id text
  step-Inv mc m cleans v = cleanup-Inv mc v m.now
  step-Inv mc m (prewarms id) v =
      subst Inv (sym (prewarm_cache-cache m.repo m.now id mc)) (schemas-Inv mc v m.repo m.now id)
  step-Inv mc m starts v = start-Inv mc v
  step-Inv mc m stops v = stop-Inv mc v

  run-keeps :
      (mc : MetadataCache) (calls : List (Moment × Call)) → Inv mc → Inv (run u iterate mc calls)
  unfolding run
  run-keeps mc [] v = v
  run-keeps mc ((m, c) ∷ calls) v = run-keeps (step u iterate mc m c) calls (step-Inv mc m c v)

new-Inv : (c : MetadataCacheConfig) → Inv (new_metadata_cache c)
unfolding new_metadata_cache
new-Inv c = record {
  counted = refl;
  distinct_schemas = tt;
  distinct_tables = tt;
  distinct_patterns = tt;
}

-- After any sequence of calls on a new cache, whatever the repository answered at each of them, the
-- number of queries for schemas and tables is the number of their hits and misses, and no cache holds
-- two entries for one key.
pub run-Inv :
    (u : Unicode) (iterate : Iteration) (c : MetadataCacheConfig) (calls : List (Moment × Call))
    → Inv (run u iterate (new_metadata_cache c) calls)
run-Inv u iterate c calls = run-keeps u iterate (new_metadata_cache c) calls (new-Inv c)
