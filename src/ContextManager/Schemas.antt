-- ===== src/ContextManager/Schemas.antt =====
-- internal/ai/context_manager.go: `CacheSchema` and `GetSchema`. The entry is a copy of the schema with the
-- time: that the source shares the caller's value and writes the time into it is not followed.
use chat2sql.Prelude.{
  ℕ, ◌-◌, Option, none, some, [], ◌∷◌, if◌then◌else◌, ltb, leb, length, Dict, number_key, lookup,
  insert, keep, delete,
}
use chat2sql.ContextManager.State.{ContextManager, SchemaInfo}

-- The first entry that no later one is older than, in the order of the iteration.
unfoldable pub oldest_from : Option (ℕ × ℕ) → Dict ℕ SchemaInfo → Option (ℕ × ℕ)
oldest_from found [] = found
oldest_from none ((id, info) ∷ m) = oldest_from (some (id, info.last_updated)) m
oldest_from (some (oldest, time)) ((id, info) ∷ m) =
    oldest_from
      (if ltb info.last_updated time then some (id, info.last_updated) else some (oldest, time)) m

-- With nothing to delete, no entry has the number 0.
unfoldable pub evict_oldest : Dict ℕ SchemaInfo → Dict ℕ SchemaInfo
unfolding oldest_from keep
evict_oldest m = elim (oldest_from none m) [ none ↦ m | some (oldest, time) ↦ delete oldest m ]

-- A full cache gives up its oldest entry, also for a connection that it holds already.
unfoldable pub make_room : ℕ → Dict ℕ SchemaInfo → Dict ℕ SchemaInfo
unfolding evict_oldest
make_room max m = if leb max (length m) then evict_oldest m else m

unfoldable pub cache_schema : ContextManager → ℕ → ℕ → SchemaInfo → ContextManager
unfolding make_room insert
cache_schema cm now id schema = record cm {
  schema_cache =
      insert id (record schema { last_updated = now })
        (make_room cm.config.max_connections_cache cm.schema_cache);
}

unfoldable pub get_schema : ContextManager → ℕ → ℕ → Option SchemaInfo
unfolding lookup
get_schema cm now id = elim (lookup id cm.schema_cache) [
  | none ↦ none
  | some schema ↦ if ltb cm.config.cache_ttl (now - schema.last_updated) then none else some schema
]
