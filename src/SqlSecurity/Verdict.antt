-- ===== src/SqlSecurity/Verdict.antt =====
-- internal/service/sql_security.go: what the verdict of `ValidateSQL` says of a text.
use chat2sql.Prelude.{
  ◌≡◌, refl, ◌≢◌, ◌≤◌, ◌↔◌, inl, inr, true, false, some, List, [], ◌∷◌, map, Bytes, arith, ltb,
  length, Unicode, to_upper, Bool-cases, ◌∙◌, sym,
}
use chat2sql.SqlSecurity.Checks.{
  NoneOccurs, whole_word, check_forbidden_keywords, check_sql_injection,
  contains_suspicious_encoding, check_forbidden_keywords_iff, check_sql_injection_iff,
}
use chat2sql.SqlSecurity.Clean.{clean_sql}
use chat2sql.SqlSecurity.Config.{Validator, ValidationError, ValidationResult}
use chat2sql.SqlSecurity.QueryType.{QueryTypes, detect_query_type, is_allowed_statement}
use chat2sql.SqlSecurity.Statements.{check_statement_count, count_statements}
use chat2sql.SqlSecurity.Validate.{
  reject, check_allowed, run_checks, validate_body, finish, validate_sql,
}

-- What a text is like that the validator lets through, with no mention of how it looks.
pub record IsAccepted (u : Unicode) (order : QueryTypes) (v : Validator) (s : Bytes) : Type 0 where
  pub some_text : s ≢ []
  pub short : length s ≤ v.max_query_length
  pub few_statements : count_statements s ≤ v.max_statements
  pub allowed :
      is_allowed_statement u v.allowed_statements (detect_query_type u order (clean_sql u v s))
      ≡ true
  pub no_keyword : NoneOccurs (map whole_word v.forbidden_keywords) (to_upper u (clean_sql u v s))
  pub no_injection : NoneOccurs v.sql_injection_patterns s
  pub plain_encoding : contains_suspicious_encoding u s ≡ false

reject_iff :
    (es : List ValidationError) (r : ValidationResult)
    → ((reject es r).is_valid ≡ true) ↔ ((es ≡ []) × (r.is_valid ≡ true))
unfolding reject
reject_iff [] r = (λ h. (refl, h), λ h. h.1)
reject_iff (e ∷ es) r = (λ h. absurd (ground arith), λ h. absurd (ground arith))

check_statement_count_iff :
    (v : Validator) (s : Bytes)
    → (check_statement_count v s ≡ []) ↔ (count_statements s ≤ v.max_statements)
unfolding check_statement_count
check_statement_count_iff v s = ground arith

check_allowed_iff :
    (u : Unicode) (v : Validator) (t : Bytes)
    → (check_allowed u v t ≡ []) ↔ (is_allowed_statement u v.allowed_statements t ≡ true)
unfolding check_allowed
check_allowed_iff u v t = ground arith

map-eq-nil_iff : {A B : Type 0} (f : A → B) (xs : List A) → (map f xs ≡ []) ↔ (xs ≡ [])
map-eq-nil_iff f [] = (λ h. refl, λ h. refl)
map-eq-nil_iff f (x ∷ xs) = (λ h. absurd (ground arith), λ h. absurd (ground arith))

module _ (u : Unicode) (order : QueryTypes) (v : Validator) (s : Bytes) where
  abbrev query_type : Bytes
  query_type = detect_query_type u order (clean_sql u v s)

  abbrev Passes : Type 0
  Passes =
      (check_statement_count v s ≡ [])
      × (check_allowed u v query_type ≡ [])
      × (check_forbidden_keywords u v (clean_sql u v s) ≡ [])
      × (check_sql_injection u v s ≡ [])

  run_checks→Passes : (run_checks u order v s (clean_sql u v s)).is_valid ≡ true → Passes
  unfolding run_checks
  run_checks→Passes h =
      let (injection, h₃) = (reject_iff _ _).0 h in
      let (keyword, h₂) = (reject_iff _ _).0 h₃ in
      let (type, h₁) = (reject_iff _ _).0 h₂ in
      let (number, _) = (reject_iff _ _).0 h₁ in
      (number, type, (map-eq-nil_iff _ _).0 keyword, (map-eq-nil_iff _ _).0 injection)

  Passes→run_checks : Passes → (run_checks u order v s (clean_sql u v s)).is_valid ≡ true
  unfolding run_checks
  Passes→run_checks (number, type, keyword, injection) = (reject_iff _ _).1 (
    (map-eq-nil_iff _ _).1 injection,
    (reject_iff _ _).1 (
      (map-eq-nil_iff _ _).1 keyword,
      (reject_iff _ _).1 (type, (reject_iff _ _).1 (number, refl)),
    ),
  )

  Passes→IsAccepted : s ≢ [] → length s ≤ v.max_query_length → Passes → IsAccepted u order v s
  Passes→IsAccepted h k (number, type, keyword, injection) =
      let (patterns, encoding) = (check_sql_injection_iff u v s).0 injection in
      record {
        some_text = h;
        short = k;
        few_statements = (check_statement_count_iff v s).0 number;
        allowed = (check_allowed_iff u v query_type).0 type;
        no_keyword = (check_forbidden_keywords_iff u v (clean_sql u v s)).0 keyword;
        no_injection = patterns;
        plain_encoding = encoding;
      }

  IsAccepted→Passes : IsAccepted u order v s → Passes
  IsAccepted→Passes a = (
    (check_statement_count_iff v s).1 a.few_statements,
    (check_allowed_iff u v query_type).1 a.allowed,
    (check_forbidden_keywords_iff u v (clean_sql u v s)).1 a.no_keyword,
    (check_sql_injection_iff u v s).1 (a.no_injection, a.plain_encoding),
  )

  body-is_valid :
      (r : ValidationResult)
      → validate_body u order v s ≡ some r
      → r.is_valid ≡ (run_checks u order v s (clean_sql u v s)).is_valid
  unfolding validate_body finish
  body-is_valid r h = ground arith

-- A text that `ValidateSQL` returns for is valid exactly when it is neither empty nor too long, has
-- no more statements than allowed, is of an allowed type, has no forbidden word in its cleaned text,
-- no injection pattern in the text itself and no suspicious encoding.
pub validate_sql_iff :
    (u : Unicode) (order : QueryTypes) (v : Validator) (s : Bytes) (r : ValidationResult)
    → validate_sql u order v s ≡ some r
    → (r.is_valid ≡ true) ↔ IsAccepted u order v s
unfolding validate_sql
validate_sql_iff u order v [] r h = (λ valid. absurd (ground arith), λ a. absurd (a.some_text refl))
validate_sql_iff u order v (c ∷ s) r h =
    elim (Bool-cases (ltb v.max_query_length (length (c ∷ s)))) [
      | inl long ↦ (λ valid. absurd (ground arith), λ a. absurd (ground (arith, a.short)))
      | inr short ↦
          let e = body-is_valid u order v (c ∷ s) r (rw (short, validate_sql) at h) in
          (
            λ valid.
                Passes→IsAccepted u order v (c ∷ s) (λ e. cc) (ground arith)
                  (run_checks→Passes u order v (c ∷ s) (sym e ∙ valid)),
            λ a. e ∙ Passes→run_checks u order v (c ∷ s) (IsAccepted→Passes u order v (c ∷ s) a),
          )
    ]
