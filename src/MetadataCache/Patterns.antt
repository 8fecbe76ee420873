-- ===== src/MetadataCache/Patterns.antt =====
-- internal/service/metadata_cache.go: `GetQueryPattern`, `findRelevantTables`, `suggestSchema`.
-- `iterate` lists the entries of a Go map as its iteration does.
use chat2sql.Prelude.{
  ℕ, ◌+◌, Bool, ◌||◌, Option, none, some, List, [], ◌∷◌, ◌++◌, Bytes, codes, Dict, lookup, insert,
  if◌then◌else◌, text_key, number_key, any, contains, Unicode, to_lower, fields,
}
use chat2sql.MetadataCache.State.{MetadataCache, CachedQueryPattern, is_expired, pattern_key}

abbrev pub Iteration : Type 0
Iteration = Dict Bytes (List Bytes) → Dict Bytes (List Bytes)

unfoldable pub is_relevant : Unicode → List Bytes → Bytes → Bool
unfolding contains to_lower
is_relevant u words table =
    any (λ w. contains w (to_lower u table) || contains (to_lower u table) w) words

unfoldable pub relevant_in : Unicode → List Bytes → List Bytes → List Bytes
unfolding is_relevant
relevant_in u words [] = []
relevant_in u words (t ∷ ts) =
    (if is_relevant u words t then t ∷ [] else []) ++ relevant_in u words ts

unfoldable pub relevant_in_all : Unicode → List Bytes → Dict Bytes (List Bytes) → List Bytes
unfolding relevant_in
relevant_in_all u words [] = []
relevant_in_all u words ((schema, tables) ∷ rest) =
    relevant_in u words tables ++ relevant_in_all u words rest

unfoldable pub find_relevant_tables : Unicode → Iteration → MetadataCache → ℕ → Bytes → List Bytes
unfolding relevant_in_all lookup fields to_lower
find_relevant_tables u iterate mc id pattern = elim (lookup id mc.connection_schemas) [
  | none ↦ []
  | some cached ↦ relevant_in_all u (fields u (to_lower u pattern)) (iterate cached.tables)
]

unfoldable pub suggest_schema : List Bytes → Bytes
suggest_schema [] = codes "public"
suggest_schema (t ∷ ts) = codes "public"

unfoldable pub fresh_pattern : MetadataCache → ℕ → Bytes → Option CachedQueryPattern
unfolding lookup
fresh_pattern mc now key = elim (lookup key mc.query_patterns) [
  | none ↦ none
  | some cached ↦ if is_expired now cached.last_updated cached.ttl then none else some cached
]

abbrev touched : CachedQueryPattern → CachedQueryPattern
touched cached = record cached { access_count = cached.access_count + 1 }

-- The pointer that a hit returns shows the raised access count.
unfoldable pub pattern_hit :
    MetadataCache → Bytes → CachedQueryPattern → MetadataCache × CachedQueryPattern
pattern_hit mc key cached = (
  record mc {
    query_patterns = insert key (touched cached) mc.query_patterns;
    stats = record (mc.stats) { pattern_hits = mc.stats.pattern_hits + 1 };
  },
  touched cached,
)

unfoldable pub pattern_miss :
    Unicode → Iteration → ℕ → ℕ → Bytes → MetadataCache → MetadataCache × CachedQueryPattern
pattern_miss u iterate now id pattern mc =
    let tables = find_relevant_tables u iterate mc id pattern in
    let entry : CachedQueryPattern = record {
      connection_id = id;
      pattern = pattern;
      relevant_tables = tables;
      suggested_schema = suggest_schema tables;
      last_updated = now;
      access_count = 1;
      ttl = mc.default_ttl;
    } in
    (
      record mc {
        query_patterns = insert (pattern_key id pattern) entry mc.query_patterns;
        stats = record (mc.stats) { pattern_misses = mc.stats.pattern_misses + 1 };
      },
      entry,
    )

unfoldable pub get_query_pattern :
    Unicode → Iteration → ℕ → ℕ → Bytes → MetadataCache → MetadataCache × CachedQueryPattern
get_query_pattern u iterate now id pattern mc =
    elim (fresh_pattern mc now (pattern_key id pattern)) [
      | some cached ↦ pattern_hit mc (pattern_key id pattern) cached
      | none ↦ pattern_miss u iterate now id pattern mc
    ]
