-- ===== src/MetadataCache/State.antt =====
-- internal/service/metadata_cache.go: the cache's state and configuration. Times and durations are
-- whole nanoseconds, identifiers are not negative, counters do not reach 2 ^ 63, and a call reads the
-- clock once. The mutexes make each call's steps exclusive: a call is one step here.
use chat2sql.Prelude.{
  ℕ, ◌+◌, ◌*◌, Bool, true, false, Option, List, [], ◌∷◌, ◌++◌, Bytes, Dict, ltb, ◌==◌,
  if◌then◌else◌, decimal, length,
}

pub record SchemaMetadata : Type 0 where
  pub schema_name : Bytes
  pub table_name : Bytes
  pub table_comment : Option Bytes
  pub column_name : Bytes
  pub data_type : Bytes
  pub is_nullable : Bool
  pub is_primary_key : Bool
  pub is_foreign_key : Bool
  pub foreign_table : Option Bytes
  pub column_comment : Option Bytes

-- The answers of the schema repository at the time of a call; `none` is an error.
pub record SchemaRepository : Type 0 where
  pub list_schemas : ℕ → Option (List Bytes)
  pub list_tables : ℕ → Bytes → Option (List Bytes)
  pub get_table_structure : ℕ → Bytes → Bytes → Option (List (Option SchemaMetadata))
  -- the tables that the relations of a table lead to
  pub get_related_tables : ℕ → Bytes → Option (List Bytes)

pub record CachedConnectionSchema : Type 0 where
  pub connection_id : ℕ
  pub schemas : List Bytes
  pub tables : Dict Bytes (List Bytes)
  pub last_updated : ℕ
  pub access_count : ℕ
  pub ttl : ℕ

pub record CachedColumn : Type 0 where
  pub column_name : Bytes
  pub data_type : Bytes
  pub is_nullable : Bool
  pub is_primary_key : Bool
  pub is_foreign_key : Bool
  pub foreign_table : Option Bytes
  pub column_comment : Option Bytes

pub record CachedTableSummary : Type 0 where
  pub connection_id : ℕ
  pub schema_name : Bytes
  pub table_name : Bytes
  pub summary : Bytes
  pub columns : List CachedColumn
  pub last_updated : ℕ
  pub access_count : ℕ
  pub ttl : ℕ

pub record CachedQueryPattern : Type 0 where
  pub connection_id : ℕ
  pub pattern : Bytes
  pub relevant_tables : List Bytes
  pub suggested_schema : Bytes
  pub last_updated : ℕ
  pub access_count : ℕ
  pub ttl : ℕ

pub record CacheStatistics : Type 0 where
  pub schema_hits : ℕ
  pub schema_misses : ℕ
  pub table_hits : ℕ
  pub table_misses : ℕ
  pub pattern_hits : ℕ
  pub pattern_misses : ℕ
  pub total_queries : ℕ
  pub cache_evictions : ℕ
  pub prefetch_operations : ℕ

pub record MetadataCache : Type 0 where
  pub connection_schemas : Dict ℕ CachedConnectionSchema
  pub table_summaries : Dict Bytes CachedTableSummary
  pub query_patterns : Dict Bytes CachedQueryPattern
  pub default_ttl : ℕ
  pub max_cache_size : ℕ
  pub enable_prefetch : Bool
  pub prefetch_threshold : ℕ
  pub stats : CacheStatistics
  pub is_running : Bool

-- A duration or size that is 0 or less in the code is 0 here.
pub record MetadataCacheConfig : Type 0 where
  pub default_ttl : ℕ
  pub max_cache_size : ℕ
  pub enable_prefetch : Bool
  pub prefetch_threshold : ℕ
  pub cleanup_interval : ℕ

abbrev minute : ℕ
minute = 60 * 1_000_000_000

abbrev pub default_config : MetadataCacheConfig
default_config = record {
  default_ttl = 30 * minute;
  max_cache_size = 10000;
  enable_prefetch = true;
  prefetch_threshold = 5;
  cleanup_interval = 5 * minute;
}

abbrev no_statistics : CacheStatistics
no_statistics = record {
  schema_hits = 0;
  schema_misses = 0;
  table_hits = 0;
  table_misses = 0;
  pattern_hits = 0;
  pattern_misses = 0;
  total_queries = 0;
  cache_evictions = 0;
  prefetch_operations = 0;
}

-- `NewMetadataCacheWithConfig`
unfoldable pub new_metadata_cache : MetadataCacheConfig → MetadataCache
new_metadata_cache c = record {
  connection_schemas = [];
  table_summaries = [];
  query_patterns = [];
  default_ttl = if c.default_ttl == 0 then 30 * minute else c.default_ttl;
  max_cache_size = if c.max_cache_size == 0 then 10000 else c.max_cache_size;
  enable_prefetch = c.enable_prefetch;
  prefetch_threshold = c.prefetch_threshold;
  stats = no_statistics;
  is_running = false;
}

pub data CacheError : Type 0 where
  already_running list_schemas_failed table_structure_failed : CacheError
  table_missing : Bytes → Bytes → CacheError

pub data Result {ℓ} (A : Type ℓ) : Type ℓ where
  ok : A → Result A
  err : CacheError → Result A

-- Work that a call leaves to a new goroutine.
pub data Task : Type 0 where
  prefetch_tables load_summary : ℕ → Bytes → Bytes → Task

-- `time.Since(last) > ttl`
abbrev pub is_expired : ℕ → ℕ → ℕ → Bool
is_expired now last ttl = ltb (last + ttl) now

-- `Start` and `Stop`
unfoldable pub start : MetadataCache → MetadataCache × Result (Unit {0})
start mc =
    if mc.is_running then (mc, err already_running) else (record mc { is_running = true }, ok tt)

unfoldable pub stop : MetadataCache → MetadataCache
stop mc =
    if mc.is_running
    then record mc {
      is_running = false;
      connection_schemas = [];
      table_summaries = [];
      query_patterns = [];
    }
    else mc

-- "%d:%s:%s" and "%d:%s"
unfoldable pub connection_prefix : ℕ → Bytes
connection_prefix id = decimal id ++ b':' ∷ []

unfoldable pub table_key : ℕ → Bytes → Bytes → Bytes
unfolding connection_prefix
table_key id schema table = connection_prefix id ++ (schema ++ b':' ∷ table)

unfoldable pub pattern_key : ℕ → Bytes → Bytes
unfolding connection_prefix
pattern_key id pattern = connection_prefix id ++ pattern

-- `GetCacheSize`
unfoldable pub get_cache_size : MetadataCache → ℕ
get_cache_size mc =
    length mc.connection_schemas + length mc.table_summaries + length mc.query_patterns
