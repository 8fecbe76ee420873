-- ===== src/ContextManager/Cached.antt =====
-- internal/ai/context_manager.go: what `GetSchema` answers after `CacheSchema`.
use chat2sql.Prelude.{
  ℕ, ◌-◌, ◌<◌, ◌≡◌, ◌≢◌, refl, ap, ◌∙◌, false, Option, none, some, if◌then◌else◌, ltb, leb, length,
  number_key, lookup, lookup-insert_self, lookup-insert_ne, arith,
}
use chat2sql.ContextManager.Schemas.{make_room, cache_schema, get_schema}
use chat2sql.ContextManager.State.{ContextManager, SchemaInfo}

abbrev answer : ContextManager → ℕ → Option SchemaInfo → Option SchemaInfo
answer cm now o = elim o [
  | none ↦ none
  | some schema ↦ if ltb cm.config.cache_ttl (now - schema.last_updated) then none else some schema
]

-- A schema that was cached is answered until its time is over, also by a cache that was full, and a cache
-- with room for it answers for every other connection as before.
pub get_schema-cache_schema :
    (cm : ContextManager) (now later id : ℕ) (schema : SchemaInfo)
    → (get_schema (cache_schema cm now id schema) later id ≡ (
        if ltb cm.config.cache_ttl (later - now)
        then none
        else some (record schema { last_updated = now })))
      × ((other : ℕ)
          → other ≢ id
          → length cm.schema_cache < cm.config.max_connections_cache
          → get_schema (cache_schema cm now id schema) later other ≡ get_schema cm later other)
unfolding get_schema cache_schema make_room
get_schema-cache_schema cm now later id schema =
    let stored : SchemaInfo = record schema { last_updated = now } in
    let kept = make_room cm.config.max_connections_cache cm.schema_cache in
    (
      ap (answer cm later) (lookup-insert_self id stored kept),
      λ other ne room.
          let fits : leb cm.config.max_connections_cache (length cm.schema_cache) ≡ false =
            ground arith in
          ap (answer cm later)
            (lookup-insert_ne id other stored kept ne ∙ ap (lookup other) (spared fits)),
    )
  where
    spared :
        leb cm.config.max_connections_cache (length cm.schema_cache) ≡ false
        → make_room cm.config.max_connections_cache cm.schema_cache ≡ cm.schema_cache
    spared fits = rw (make_room, fits) refl
