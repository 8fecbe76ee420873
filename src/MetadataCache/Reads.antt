-- ===== src/MetadataCache/Reads.antt =====
-- internal/service/metadata_cache.go, `GetTableSummary`: what a second call answers.
use chat2sql.Prelude.{
  ℕ, ◌≡◌, refl, ap, sym, ◌∙◌, false, Option, none, some, List, [], ◌∷◌, ◌++◌, Bytes, arith, lookup,
  lookup-insert_self, if◌then◌else◌, text_key, Bool-cases, Option-cases, inl, inr,
}
use chat2sql.MetadataCache.Keys.{table_key_collision}
use chat2sql.MetadataCache.State.{
  MetadataCache, SchemaMetadata, SchemaRepository, CachedTableSummary, Result, ok, err,
  table_structure_failed, table_missing, is_expired, table_key,
}
use chat2sql.MetadataCache.Tables.{
  Summary, fresh_table, table_entry, store_table, store_rows, load_table, get_table_summary,
  build_table_summary, cached_columns, summary_of,
}

abbrev Rows : Type 0
Rows = List (Option SchemaMetadata)

abbrev pub summary_of_rows : Rows → Summary
summary_of_rows rows = (build_table_summary rows, cached_columns rows)

-- What the repository's rows for a table come to.
abbrev rows_answer : Bytes → Bytes → Rows → Result Summary
rows_answer schema table [] = err (table_missing schema table)
rows_answer schema table (row ∷ rows) = ok (summary_of_rows (row ∷ rows))

abbrev pub table_answer : SchemaRepository → ℕ → Bytes → Bytes → Result Summary
table_answer repo id schema table = elim (repo.get_table_structure id schema table) [
  | none ↦ err table_structure_failed
  | some rows ↦ rows_answer schema table rows
]

store_rows-answer :
    (now id : ℕ) (schema table : Bytes) (rows : Rows) (mc : MetadataCache)
    → (store_rows now id schema table rows mc).1 ≡ rows_answer schema table rows
unfolding store_rows table_entry
store_rows-answer now id schema table [] mc = refl
store_rows-answer now id schema table (row ∷ rows) mc = refl

load_table-answer :
    (repo : SchemaRepository) (now id : ℕ) (schema table : Bytes) (mc : MetadataCache)
    → (load_table repo now id schema table mc).1 ≡ table_answer repo id schema table
unfolding load_table
load_table-answer repo now id schema table mc =
    elim (Option-cases (repo.get_table_structure id schema table)) [
      | inl e ↦ rw (e, load_table, table_answer)
      | inr (rows, e) ↦
          rw (e, load_table, table_answer) (store_rows-answer now id schema table rows _)
    ]

load-answer :
    (repo : SchemaRepository) (now id : ℕ) (schema table : Bytes) (mc : MetadataCache)
    → fresh_table mc now (table_key id schema table) ≡ none
    → (get_table_summary repo now id schema table mc).1 ≡ table_answer repo id schema table
unfolding get_table_summary
load-answer repo now id schema table mc h =
    rw (h, get_table_summary) (load_table-answer repo now id schema table _)

hit-answer :
    (repo : SchemaRepository) (now id : ℕ) (schema table : Bytes) (mc : MetadataCache)
    (cached : CachedTableSummary)
    → fresh_table mc now (table_key id schema table) ≡ some cached
    → (get_table_summary repo now id schema table mc).1 ≡ ok (summary_of cached)
unfolding get_table_summary
hit-answer repo now id schema table mc cached h = ground arith

module _ (repo : SchemaRepository) (t id : ℕ) (schema table : Bytes) (mc : MetadataCache)
    (row : Option SchemaMetadata) (rows : Rows)
    (missing : fresh_table mc t (table_key id schema table) ≡ none)
    (found : repo.get_table_structure id schema table ≡ some (row ∷ rows)) where
  abbrev entry : CachedTableSummary
  entry = table_entry t id schema table mc.default_ttl (row ∷ rows)

  abbrev loaded : MetadataCache
  loaded = (get_table_summary repo t id schema table mc).0

  lookup-loaded : lookup (table_key id schema table) loaded.table_summaries ≡ some entry
  unfolding get_table_summary load_table store_rows store_table table_entry
  lookup-loaded =
      ground (arith, lookup-insert_self (table_key id schema table) entry mc.table_summaries)

  fresh-loaded :
      (t' : ℕ)
      → fresh_table loaded t' (table_key id schema table)
        ≡ (if is_expired t' t mc.default_ttl then none else some entry)
  unfolding fresh_table table_entry
  fresh-loaded t' = rw (lookup-loaded, fresh_table)

  -- A later call for any table with the same key.
  answer_same_key :
      (repo' : SchemaRepository) (t' : ℕ) (schema' table' : Bytes)
      → table_key id schema' table' ≡ table_key id schema table
      → (get_table_summary repo' t' id schema' table' loaded).1 ≡ (
          if is_expired t' t mc.default_ttl
          then table_answer repo' id schema' table'
          else ok (summary_of_rows (row ∷ rows)))
  unfolding table_entry
  answer_same_key repo' t' schema' table' e = elim (Bool-cases (is_expired t' t mc.default_ttl)) [
    | inl old ↦
        rw old (load-answer repo' t' id schema' table' loaded (at_key ∙ (fresh-loaded t' ∙ rw old)))
    | inr fresh ↦
        rw fresh (
          hit-answer repo' t' id schema' table' loaded entry
            (at_key ∙ (fresh-loaded t' ∙ rw fresh)))
  ]
    where
      at_key :
          fresh_table loaded t' (table_key id schema' table')
          ≡ fresh_table loaded t' (table_key id schema table)
      at_key = ap (fresh_table loaded t') e

-- After a load that succeeds at time `t`, a call for the same table at time `t'` answers with the
-- loaded rows until the default TTL has passed, and from the repository afterwards.
pub get_table_summary_again :
    (repo repo' : SchemaRepository) (t t' id : ℕ) (schema table : Bytes) (mc : MetadataCache)
    (row : Option SchemaMetadata) (rows : List (Option SchemaMetadata))
    → fresh_table mc t (table_key id schema table) ≡ none
    → repo.get_table_structure id schema table ≡ some (row ∷ rows)
    → (get_table_summary repo' t' id schema table (get_table_summary repo t id schema table mc).0).1
      ≡ (if is_expired t' t mc.default_ttl
          then table_answer repo' id schema table
          else ok (summary_of_rows (row ∷ rows)))
get_table_summary_again repo repo' t t' id schema table mc row rows h k =
    answer_same_key repo t id schema table mc row rows h k repo' t' schema table refl

-- Where a name holds a colon the cache answers for the wrong table: after table `c` of schema `a:b`
-- was loaded, a call for table `b:c` of schema `a` within the TTL gets the columns of the former.
pub get_table_summary_collision :
    (repo repo' : SchemaRepository) (t t' id : ℕ) (a b c : Bytes) (mc : MetadataCache)
    (row : Option SchemaMetadata) (rows : List (Option SchemaMetadata))
    → fresh_table mc t (table_key id (a ++ b':' ∷ b) c) ≡ none
    → repo.get_table_structure id (a ++ b':' ∷ b) c ≡ some (row ∷ rows)
    → is_expired t' t mc.default_ttl ≡ false
    → (get_table_summary repo' t' id a
        (b ++ b':' ∷ c)
        (get_table_summary repo t id (a ++ b':' ∷ b) c mc).0).1
      ≡ ok (summary_of_rows (row ∷ rows))
get_table_summary_collision repo repo' t t' id a b c mc row rows h k fresh =
    answer_same_key repo t id (a ++ b':' ∷ b) c mc row rows h k repo' t' a (b ++ b':' ∷ c)
      (sym (table_key_collision id a b c))
    ∙ rw fresh
