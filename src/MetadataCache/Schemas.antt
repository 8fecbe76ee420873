-- ===== src/MetadataCache/Schemas.antt =====
-- internal/service/metadata_cache.go, `GetConnectionSchemas`: the list of schemas of a connection.
use chat2sql.Prelude.{
  ℕ, ◌+◌, ◌≡◌, Option, none, some, List, [], ◌∷◌, Bytes, Dict, lookup, insert, if◌then◌else◌, arith,
  lookup-insert_self, number_key, text_key, inl, inr, ◌∙◌, Bool-cases,
}
use chat2sql.MetadataCache.State.{
  MetadataCache, CachedConnectionSchema, SchemaRepository, Result, ok, err, list_schemas_failed,
  is_expired,
}

-- The loop over the schemas; a schema whose tables cannot be listed is left out.
unfoldable pub tables_by_schema :
    SchemaRepository → ℕ → List Bytes → Dict Bytes (List Bytes) → Dict Bytes (List Bytes)
unfolding insert
tables_by_schema repo id [] found = found
tables_by_schema repo id (s ∷ ss) found =
    tables_by_schema repo id ss
      (elim (repo.list_tables id s) [ none ↦ found | some tables ↦ insert s tables found ])

-- The entry that is there and has not expired.
unfoldable pub fresh_schema : MetadataCache → ℕ → ℕ → Option CachedConnectionSchema
unfolding lookup
fresh_schema mc now id = elim (lookup id mc.connection_schemas) [
  | none ↦ none
  | some cached ↦ if is_expired now cached.last_updated cached.ttl then none else some cached
]

abbrev pub count_query : MetadataCache → MetadataCache
count_query mc = record mc {
  stats = record (mc.stats) { total_queries = mc.stats.total_queries + 1 };
}

unfoldable pub schema_hit : MetadataCache → ℕ → CachedConnectionSchema → MetadataCache
schema_hit mc id cached = record mc {
  connection_schemas =
      insert id (record cached { access_count = cached.access_count + 1 }) mc.connection_schemas;
  stats = record (mc.stats) { schema_hits = mc.stats.schema_hits + 1 };
}

unfoldable pub schema_entry : SchemaRepository → ℕ → ℕ → ℕ → List Bytes → CachedConnectionSchema
unfolding tables_by_schema
schema_entry repo now id ttl schemas = record {
  connection_id = id;
  schemas = schemas;
  tables = tables_by_schema repo id schemas [];
  last_updated = now;
  access_count = 1;
  ttl = ttl;
}

unfoldable pub store_schemas : SchemaRepository → ℕ → ℕ → List Bytes → MetadataCache → MetadataCache
store_schemas repo now id schemas mc = record mc {
  connection_schemas =
      insert id (schema_entry repo now id mc.default_ttl schemas) mc.connection_schemas;
}

abbrev pub schema_missed : MetadataCache → MetadataCache
schema_missed mc = record mc {
  stats = record (mc.stats) { schema_misses = mc.stats.schema_misses + 1 };
}

unfoldable pub load_schemas :
    SchemaRepository → ℕ → ℕ → MetadataCache → MetadataCache × Result (List Bytes)
load_schemas repo now id mc =
    let missed = schema_missed mc in
    elim (repo.list_schemas id) [
      | none ↦ (missed, err list_schemas_failed)
      | some schemas ↦ (store_schemas repo now id schemas missed, ok schemas)
    ]

unfoldable pub get_connection_schemas :
    SchemaRepository → ℕ → ℕ → MetadataCache → MetadataCache × Result (List Bytes)
get_connection_schemas repo now id mc = elim (fresh_schema mc now id) [
  | some cached ↦ (schema_hit (count_query mc) id cached, ok cached.schemas)
  | none ↦ load_schemas repo now id (count_query mc)
]

-- What the repository answers.
abbrev pub schemas_answer : SchemaRepository → ℕ → Result (List Bytes)
schemas_answer repo id = elim (repo.list_schemas id) [
  | none ↦ err list_schemas_failed
  | some xs ↦ ok xs
]

load-answer :
    (repo : SchemaRepository) (now id : ℕ) (mc : MetadataCache)
    → fresh_schema mc now id ≡ none
    → (get_connection_schemas repo now id mc).1 ≡ schemas_answer repo id
unfolding get_connection_schemas load_schemas
load-answer repo now id mc h = ground arith

get_connection_schemas_fresh :
    (repo : SchemaRepository) (now id : ℕ) (mc : MetadataCache) (cached : CachedConnectionSchema)
    → fresh_schema mc now id ≡ some cached
    → (get_connection_schemas repo now id mc).1 ≡ ok cached.schemas
unfolding get_connection_schemas
get_connection_schemas_fresh repo now id mc cached h = ground arith

lookup-stored :
    (repo : SchemaRepository) (t id : ℕ) (mc : MetadataCache) (xs : List Bytes)
    → fresh_schema mc t id ≡ none
    → repo.list_schemas id ≡ some xs
    → lookup id (get_connection_schemas repo t id mc).0.connection_schemas
      ≡ some (schema_entry repo t id mc.default_ttl xs)
unfolding get_connection_schemas load_schemas store_schemas
lookup-stored repo t id mc xs h k =
    ground (
      arith,
      lookup-insert_self id (schema_entry repo t id mc.default_ttl xs) mc.connection_schemas,
    )

fresh-lookup :
    (mc : MetadataCache) (t id : ℕ) (cached : CachedConnectionSchema)
    → lookup id mc.connection_schemas ≡ some cached
    → fresh_schema mc t id
      ≡ (if is_expired t cached.last_updated cached.ttl then none else some cached)
unfolding fresh_schema
fresh-lookup mc t id cached h = rw (h, fresh_schema)

-- After a load that succeeds at time `t`, a call at time `t'` answers with the loaded list until the
-- default TTL has passed, whatever the repository holds by then, and with the repository's answer of
-- that time afterwards.
pub get_connection_schemas_again :
    (repo repo' : SchemaRepository) (t t' id : ℕ) (mc : MetadataCache) (xs : List Bytes)
    → fresh_schema mc t id ≡ none
    → repo.list_schemas id ≡ some xs
    → (get_connection_schemas repo' t' id (get_connection_schemas repo t id mc).0).1
      ≡ (if is_expired t' t mc.default_ttl then schemas_answer repo' id else ok xs)
unfolding schema_entry
get_connection_schemas_again repo repo' t t' id mc xs h k =
    elim (Bool-cases (is_expired t' t mc.default_ttl)) [
      | inl old ↦ rw old (load-answer repo' t' id _ (at_second ∙ rw old))
      | inr fresh ↦
          rw fresh (get_connection_schemas_fresh repo' t' id _ entry (at_second ∙ rw fresh))
    ]
  where
    entry : CachedConnectionSchema
    entry = schema_entry repo t id mc.default_ttl xs

    at_second :
        fresh_schema (get_connection_schemas repo t id mc).0 t' id
        ≡ (if is_expired t' t mc.default_ttl then none else some entry)
    at_second =
        fresh-lookup (get_connection_schemas repo t id mc).0 t' id entry
          (lookup-stored repo t id mc xs h k)
