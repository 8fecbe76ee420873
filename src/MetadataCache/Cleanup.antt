-- ===== src/MetadataCache/Cleanup.antt =====
-- internal/service/metadata_cache.go, `performCleanup`: exactly the expired entries go, and they are
-- counted.
use chat2sql.Prelude.{
  ℕ, ◌+◌, ◌≡◌, refl, Bool, not, [], ◌∷◌, Bytes, Dict, keep, Distinct, arith, lookup, lookup-keep,
  filter_value, number_key, text_key, length, if◌then◌else◌, ◌∙◌, Option, none, some,
}
use chat2sql.MetadataCache.State.{MetadataCache, get_cache_size, is_expired}
use chat2sql.MetadataCache.Upkeep.{count_dropped, perform_cleanup}

length-keep :
    {K V : Type 0} (f : K → V → Bool) (m : Dict K V)
    → length (keep f m) + count_dropped f m ≡ length m
unfolding keep count_dropped
length-keep f [] = omega arith
length-keep f ((k, v) ∷ m) = ground (arith, length-keep f m)

-- The entries that go are counted as evictions, and nothing else is.
perform_cleanup-count :
    (now : ℕ) (mc : MetadataCache)
    → get_cache_size (perform_cleanup now mc) + (perform_cleanup now mc).stats.cache_evictions
      ≡ get_cache_size mc + mc.stats.cache_evictions
unfolding get_cache_size perform_cleanup
perform_cleanup-count now mc = ground (
  arith,
  length-keep (λ _ v. not (is_expired now v.last_updated v.ttl)) mc.connection_schemas,
  length-keep (λ _ v. not (is_expired now v.last_updated v.ttl)) mc.table_summaries,
  length-keep (λ _ v. not (is_expired now v.last_updated v.ttl)) mc.query_patterns,
)

-- A cache entry, if it is there and has not expired.
abbrev pub unless {ℓ} : {A : Type ℓ} → (A → Bool) → Option A → Option A
unless f none = none
unless f (some a) = if f a then none else some a

filter-unless :
    {K V : Type 0} (f : V → Bool) (k : K) (o : Option V)
    → filter_value (λ _ v. not (f v)) k o ≡ unless f o
filter-unless f k none = refl
filter-unless f k (some v) = ground arith

-- Where no cache holds a key twice, after a cleanup a key has its entry as before, unless the entry
-- had expired.
pub lookup-perform_cleanup :
    (now id : ℕ) (key key' : Bytes) (mc : MetadataCache)
    → Distinct mc.connection_schemas
    → Distinct mc.table_summaries
    → Distinct mc.query_patterns
    → let mc' = perform_cleanup now mc in
      (lookup id mc'.connection_schemas
        ≡ unless (λ v. is_expired now v.last_updated v.ttl) (lookup id mc.connection_schemas))
      × (lookup key mc'.table_summaries
          ≡ unless (λ v. is_expired now v.last_updated v.ttl) (lookup key mc.table_summaries))
      × (lookup key' mc'.query_patterns
          ≡ unless (λ v. is_expired now v.last_updated v.ttl) (lookup key' mc.query_patterns))
unfolding perform_cleanup
lookup-perform_cleanup now id key key' mc d e f = (
  lookup-keep _ id mc.connection_schemas d
      ∙ filter-unless (λ v. is_expired now v.last_updated v.ttl) id
          (lookup id mc.connection_schemas),
  lookup-keep _ key mc.table_summaries e
      ∙ filter-unless (λ v. is_expired now v.last_updated v.ttl) key
          (lookup key mc.table_summaries),
  lookup-keep _ key' mc.query_patterns f
      ∙ filter-unless (λ v. is_expired now v.last_updated v.ttl) key'
          (lookup key' mc.query_patterns),
)
