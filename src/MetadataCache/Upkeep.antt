-- ===== src/MetadataCache/Upkeep.antt =====
-- internal/service/metadata_cache.go: `InvalidateConnection` and `performCleanup`.
use chat2sql.Prelude.{
  ℕ, ◌+◌, Bool, not, [], ◌∷◌, Dict, keep, delete, has_prefix, ltb, if◌then◌else◌, number_key,
  text_key,
}
use chat2sql.MetadataCache.State.{MetadataCache, connection_prefix, is_expired}

-- Two caches are searched for keys that begin with the connection's number and a colon.
unfoldable pub invalidate_connection : ℕ → MetadataCache → MetadataCache
invalidate_connection id mc = record mc {
  connection_schemas = delete id mc.connection_schemas;
  table_summaries = keep (λ key _. not (has_prefix (connection_prefix id) key)) mc.table_summaries;
  query_patterns = keep (λ key _. not (has_prefix (connection_prefix id) key)) mc.query_patterns;
}

-- How many entries a pass removes.
unfoldable pub count_dropped {ℓ} : {K V : Type ℓ} → (K → V → Bool) → Dict K V → ℕ
count_dropped f [] = 0
count_dropped f ((k, v) ∷ m) = (if f k v then 0 else 1) + count_dropped f m

unfoldable pub perform_cleanup : ℕ → MetadataCache → MetadataCache
perform_cleanup now mc =
    let evictions =
      count_dropped (λ _ v. not (is_expired now v.last_updated v.ttl)) mc.connection_schemas
      + count_dropped (λ _ v. not (is_expired now v.last_updated v.ttl)) mc.table_summaries
      + count_dropped (λ _ v. not (is_expired now v.last_updated v.ttl)) mc.query_patterns in
    record mc {
      connection_schemas =
          keep (λ _ v. not (is_expired now v.last_updated v.ttl)) mc.connection_schemas;
      table_summaries = keep (λ _ v. not (is_expired now v.last_updated v.ttl)) mc.table_summaries;
      query_patterns = keep (λ _ v. not (is_expired now v.last_updated v.ttl)) mc.query_patterns;
      stats =
          if ltb 0 evictions
          then record (mc.stats) { cache_evictions = mc.stats.cache_evictions + evictions }
          else mc.stats;
    }
