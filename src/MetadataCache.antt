-- ===== src/MetadataCache.antt =====
-- internal/service/metadata_cache.go: the cache of schema metadata, shared by all requests.
pub mod State
pub mod Schemas
pub mod Tables
pub mod Patterns
pub mod Upkeep
pub mod Prewarm
pub mod Keys
pub mod Reads
pub mod Cleanup
pub mod Runs
pub mod Outcomes
pub mod Invariant
pub mod Tests
