-- ===== src/SqlSecurity/Total.antt =====
-- internal/service/sql_security.go: on ASCII texts `ValidateSQL` returns.
use mathlib.Core.List.{reverse, reverse-cons}
use chat2sql.Prelude.{
  ℕ, zero, suc, ◌≡◌, refl, ◌-◌, Bool, true, Option, none, some, List, [], ◌∷◌, ◌++◌, Bytes, arith,
  all, ltb, is_ascii, is_space, length, trim_left, trim, trim_space, Unicode, Bool-cases,
  Option-cases, inl, inr,
}
use chat2sql.Regexp.{Pattern, match, replace_all}
use chat2sql.SqlSecurity.Clean.{strip_comments, squeeze, clean_sql}
use chat2sql.SqlSecurity.Config.{Validator, ValidationResult}
use chat2sql.SqlSecurity.QueryType.{QueryTypes}
use chat2sql.SqlSecurity.Tables.{extract_tables-ascii}
use chat2sql.SqlSecurity.Validate.{too_long_result, finish, run_checks, validate_body, validate_sql}

module _ (f : ℕ → Bool) where
  all-append : (s t : Bytes) → all f s ≡ true → all f t ≡ true → all f (s ++ t) ≡ true
  all-append [] t h k = k
  all-append (c ∷ s) t h k = ground (arith, all-append s t)

  all-replace_all :
      (is : Pattern) (w : Bytes) (p : Option ℕ) (skip : ℕ) (s : Bytes)
      → all f w ≡ true
      → all f s ≡ true
      → all f (replace_all is w p skip s) ≡ true
  unfolding replace_all
  all-replace_all is w p zero [] h k = refl
  all-replace_all is w p (suc skip) [] h k = refl
  all-replace_all is w p (suc skip) (c ∷ s) h k =
      all-replace_all is w (some c) skip s h (ground arith)
  all-replace_all is w p zero (c ∷ s) h k = elim (Option-cases (match is p (c ∷ s))) [
    | inl e ↦ rw (e, replace_all) (ground (arith, all-replace_all is w (some c) 0 s h))
    | inr (r, e) ↦
        rw (e, replace_all)
          (all-append w _ h
            (all-replace_all is w (some c) (length s - length r) s h (ground arith)))
  ]

  all-trim_left : (g : ℕ → Bool) (s : Bytes) → all f s ≡ true → all f (trim_left g s) ≡ true
  unfolding trim_left
  all-trim_left g [] h = refl
  all-trim_left g (c ∷ s) h = ground (arith, all-trim_left g s)

  all-reverse : (s : Bytes) → all f s ≡ true → all f (reverse s) ≡ true
  all-reverse [] h = refl
  all-reverse (c ∷ s) h =
      rw (reverse-cons c s)
        (all-append (reverse s) (c ∷ []) (all-reverse s (ground arith)) (ground arith))

  all-trim : (g : ℕ → Bool) (s : Bytes) → all f s ≡ true → all f (trim g s) ≡ true
  unfolding trim
  all-trim g s h = all-reverse _ (all-trim_left g _ (all-reverse _ (all-trim_left g s h)))

strip_comments-ascii :
    (ps : List Pattern) (s : Bytes) → is_ascii s ≡ true → is_ascii (strip_comments ps s) ≡ true
unfolding strip_comments
strip_comments-ascii [] s h = h
strip_comments-ascii (p ∷ ps) s h =
    strip_comments-ascii ps _ (all-replace_all (λ c. ltb c 128) p (32 ∷ []) none 0 s refl h)

trim_space-ascii : (u : Unicode) (s : Bytes) → is_ascii s ≡ true → is_ascii (trim_space u s) ≡ true
unfolding trim_space
trim_space-ascii u s h = rw h (all-trim (λ c. ltb c 128) is_space s h)

clean_sql-ascii :
    (u : Unicode) (v : Validator) (s : Bytes)
    → is_ascii s ≡ true
    → is_ascii (clean_sql u v s) ≡ true
unfolding clean_sql squeeze
clean_sql-ascii u v s h =
    all-replace_all (λ c. ltb c 128) _ (32 ∷ []) none 0 _ refl
      (trim_space-ascii u _ (strip_comments-ascii v.comment_patterns s h))

-- On an ASCII text no slice is out of range: there is a result.
pub validate_sql-ascii :
    (u : Unicode) (order : QueryTypes) (v : Validator) (s : Bytes)
    → is_ascii s ≡ true
    → (r : ValidationResult) × (validate_sql u order v s ≡ some r)
unfolding validate_sql validate_body
validate_sql-ascii u order v [] h = (_, refl)
validate_sql-ascii u order v (c ∷ s) h =
    elim (Bool-cases (ltb v.max_query_length (length (c ∷ s)))) [
      | inl long ↦ (too_long_result v, rw long)
      | inr short ↦
          let (tables, e) =
            extract_tables-ascii u (clean_sql u v (c ∷ s)) (clean_sql-ascii u v (c ∷ s) h) in
          (
            finish u (clean_sql u v (c ∷ s)) (run_checks u order v (c ∷ s) (clean_sql u v (c ∷ s)))
                tables,
            rw (short, e),
          )
    ]
