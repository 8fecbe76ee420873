-- ===== src/ContextManager/Memory.antt =====
-- internal/ai/context_manager.go: the tables and the patterns that are remembered of a user.
use chat2sql.Prelude.{
  ℕ, zero, suc, ◌≤◌, ◌≡◌, refl, sym, false, ◌||◌, List, [], ◌∷◌, ◌++◌, Bytes, same_bytes,
  same_bytes_iff, ltb, length, drop, length-append, length-drop, Unicode, Bool-cases, if_holds, inl,
  inr, is_empty, arith,
}
use chat2sql.ContextManager.Patterns.{
  contains_string, remember, remember_tables, analyze_query_pattern, extract_table_names_from_sql,
  identify_query_pattern,
}
use chat2sql.ContextManager.State.{UserContext}

-- A text list of no more than `limit` texts, of which none stands twice.
abbrev pub NoDup : List Bytes → Type 0
NoDup [] = Unit
NoDup (s ∷ texts) = (contains_string texts s ≡ false) × NoDup texts

pub record IsMemory (limit : ℕ) (texts : List Bytes) : Type 0 where
  pub bounded : length texts ≤ limit
  pub distinct : NoDup texts

contains_string-snoc :
    (texts : List Bytes) (s t : Bytes)
    → contains_string texts t ≡ false
    → same_bytes s t ≡ false
    → contains_string (texts ++ s ∷ []) t ≡ false
unfolding contains_string
contains_string-snoc [] s t h k = ground arith
contains_string-snoc (x ∷ texts) s t h k = ground (arith, contains_string-snoc texts s t)

snoc-NoDup :
    (texts : List Bytes) (s : Bytes)
    → contains_string texts s ≡ false
    → NoDup texts
    → NoDup (texts ++ s ∷ [])
unfolding contains_string
snoc-NoDup [] s h d = (refl, tt)
snoc-NoDup (x ∷ texts) s h (new, d) = (
  contains_string-snoc texts s x new (other s x (ground arith)),
  snoc-NoDup texts s (ground arith) d,
)
  where
    other : (s x : Bytes) → same_bytes x s ≡ false → same_bytes s x ≡ false
    other s x k = elim (Bool-cases (same_bytes s x)) [
      | inl e ↦ let same = (same_bytes_iff x s).1 (sym ((same_bytes_iff s x).0 e)) in grind arith
      | inr e ↦ e
    ]

drop-NoDup : (n : ℕ) (texts : List Bytes) → NoDup texts → NoDup (drop n texts)
drop-NoDup zero texts d = d
drop-NoDup (suc n) [] d = tt
drop-NoDup (suc n) (x ∷ texts) (new, d) = drop-NoDup n texts d

remember-IsMemory :
    (limit : ℕ) (s : Bytes) (texts : List Bytes)
    → IsMemory limit texts
    → IsMemory limit (remember limit s texts)
unfolding remember
remember-IsMemory limit s texts h = elim (Bool-cases (contains_string texts s)) [
  | inl there ↦ rw there h
  | inr new ↦
      let longer = texts ++ s ∷ [] in
      let d = snoc-NoDup texts s new h.distinct in
      elim (Bool-cases (ltb limit (length longer))) [
        | inl over ↦
            rw (new, over)
              (record {
                bounded =
                    omega (arith, h.bounded, length-append texts (s ∷ []), length-drop 1 longer);
                distinct = drop-NoDup 1 longer d;
              })
        | inr fits ↦ rw (new, fits) (record { bounded = ground arith; distinct = d })
      ]
]

remember_tables-IsMemory :
    (names texts : List Bytes) → IsMemory 10 texts → IsMemory 10 (remember_tables names texts)
unfolding remember_tables
remember_tables-IsMemory [] texts h = h
remember_tables-IsMemory (n ∷ names) texts h =
    remember_tables-IsMemory names (remember 10 n texts) (remember-IsMemory 10 n texts h)

-- At most ten tables and five patterns, none of them twice.
pub record IsBounded (ctx : UserContext) : Type 0 where
  pub tables : IsMemory 10 ctx.frequent_tables
  pub patterns : IsMemory 5 ctx.query_patterns

pub analyze_query_pattern-IsBounded :
    (u : Unicode) (query sql : Bytes) (ctx : UserContext)
    → IsBounded ctx
    → IsBounded (analyze_query_pattern u query sql ctx)
unfolding analyze_query_pattern
analyze_query_pattern-IsBounded u query sql ctx h =
    if_holds IsBounded (is_empty query || is_empty sql) h (record {
      tables =
          remember_tables-IsMemory (extract_table_names_from_sql u sql) ctx.frequent_tables
            h.tables;
      patterns =
          remember-IsMemory 5 (identify_query_pattern u query sql) ctx.query_patterns h.patterns;
    })
