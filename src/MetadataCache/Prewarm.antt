-- ===== src/MetadataCache/Prewarm.antt =====
-- internal/service/metadata_cache.go: `PrewarmCache` and `GetCacheStatistics`. The repository is asked
-- twice for the schemas; between the two its answer is taken to be one.
use chat2sql.Prelude.{ℕ, ◌≡◌, refl, none, some, List, [], ◌∷◌, ◌++◌, map, take, Bytes, arith}
use chat2sql.MetadataCache.Schemas.{get_connection_schemas}
use chat2sql.MetadataCache.State.{
  MetadataCache, CacheStatistics, SchemaRepository, Result, ok, err, list_schemas_failed, Task,
  load_summary,
}

-- The goroutines for the first five tables of each schema whose tables can be listed.
unfoldable pub prewarm_tasks : SchemaRepository → ℕ → List Bytes → List Task
prewarm_tasks repo id [] = []
prewarm_tasks repo id (s ∷ ss) =
    (elim (repo.list_tables id s) [ none ↦ [] | some ts ↦ map (load_summary id s) (take 5 ts) ])
    ++ prewarm_tasks repo id ss

unfoldable pub prewarm_from :
    SchemaRepository
    → ℕ
    → MetadataCache
    → Result (List Bytes)
    → MetadataCache × Result (Unit {0}) × List Task
prewarm_from repo id mc (err e) = (mc, err e, [])
prewarm_from repo id mc (ok xs) = elim (repo.list_schemas id) [
  | none ↦ (mc, err list_schemas_failed, [])
  | some ys ↦ (mc, ok tt, prewarm_tasks repo id ys)
]

unfoldable pub prewarm_cache :
    SchemaRepository → ℕ → ℕ → MetadataCache → MetadataCache × Result (Unit {0}) × List Task
prewarm_cache repo now id mc =
    let (read, result) = get_connection_schemas repo now id mc in prewarm_from repo id read result

-- `GetCacheStatistics`: a copy.
unfoldable pub get_cache_statistics : MetadataCache → CacheStatistics
get_cache_statistics mc = mc.stats

prewarm_from-cache :
    (repo : SchemaRepository) (id : ℕ) (mc : MetadataCache) (r : Result (List Bytes))
    → (prewarm_from repo id mc r).0 ≡ mc
unfolding prewarm_from
prewarm_from-cache repo id mc (err e) = refl
prewarm_from-cache repo id mc (ok xs) = ground arith

-- The call itself does to the cache what the read of the schemas does; the rest is left to its tasks.
pub prewarm_cache-cache :
    (repo : SchemaRepository) (now id : ℕ) (mc : MetadataCache)
    → (prewarm_cache repo now id mc).0 ≡ (get_connection_schemas repo now id mc).0
unfolding prewarm_cache
prewarm_cache-cache repo now id mc = prewarm_from-cache repo id _ _
