-- ===== src/SqlSecurity/Outcome.antt =====
-- internal/service/sql_security.go: what a result of `ValidateSQL` looks like, and that there is one.
use mathlib.Core.List.{Perm}
use chat2sql.Prelude.{
  ℕ, ◌≡◌, refl, ◌≢◌, ◌≤◌, ◌<◌, ◌↔◌, inl, inr, true, false, not, some, List, [], ◌∷◌, Bytes, arith,
  ltb, if◌then◌else◌, is_empty, length, Unicode, append-eq-nil, Bool-cases, Option-cases,
  some_subst,
}
use chat2sql.SqlSecurity.Clean.{clean_sql}
use chat2sql.SqlSecurity.Config.{Validator, ValidationError, ValidationResult, low, high}
use chat2sql.SqlSecurity.QueryType.{QueryTypes, query_types, detect_query_type-perm}
use chat2sql.SqlSecurity.Risk.{
  assess_advanced_risk, calculate_security_score, calculate_security_score_high,
}
use chat2sql.SqlSecurity.Tables.{extract_tables}
use chat2sql.SqlSecurity.Validate.{
  reject, new_result, finish, run_checks, validate_body, validate_sql, validate_sql_strict,
  SecurityReport, get_security_report,
}

-- The flag and the errors agree, and no warning was recorded.
abbrev IsSettled : ValidationResult → Type 0
IsSettled r = ((r.is_valid ≡ true) ↔ (r.errors ≡ [])) × (r.warnings ≡ [])

reject-IsSettled :
    (es : List ValidationError) (r : ValidationResult) → IsSettled r → IsSettled (reject es r)
unfolding reject
reject-IsSettled [] r h = h
reject-IsSettled (e ∷ es) r h = (
  (λ v. absurd (ground arith), λ k. absurd (ground (arith, append-eq-nil r.errors (e ∷ es) k))),
  h.1,
)

run_checks-IsSettled :
    (u : Unicode) (order : QueryTypes) (v : Validator) (s cleaned : Bytes)
    → IsSettled (run_checks u order v s cleaned)
unfolding run_checks
run_checks-IsSettled u order v s cleaned = reject-IsSettled _ _ (
    reject-IsSettled _ _
      (reject-IsSettled _ _ (reject-IsSettled _ new_result ((λ h. refl, λ h. refl), refl))))

high_of_errors :
    (u : Unicode) (r : ValidationResult) (s : Bytes)
    → r.errors ≢ []
    → assess_advanced_risk u r s ≡ high
unfolding assess_advanced_risk
high_of_errors u r s h = ground arith

abbrev IsSettledAt : ValidationResult → Type 0
IsSettledAt r = IsSettled r × (r.errors ≢ [] → r.risk ≡ high)

finish_settled :
    (u : Unicode) (cleaned : Bytes) (r : ValidationResult) (tables : List Bytes)
    → IsSettled r
    → IsSettledAt (finish u cleaned r tables)
unfolding finish
finish_settled u cleaned r tables h = (h, high_of_errors u _ cleaned)

body_settled :
    (u : Unicode) (order : QueryTypes) (v : Validator) (s : Bytes) (r : ValidationResult)
    → validate_body u order v s ≡ some r
    → IsSettledAt r
unfolding validate_body
body_settled u order v s r h = elim (Option-cases (extract_tables u (clean_sql u v s))) [
  | inl e ↦ absurd (ground arith)
  | inr (tables, e) ↦
      some_subst IsSettledAt (rw (e, validate_body) at h)
        (finish_settled u _ _ tables (run_checks-IsSettled u order v s (clean_sql u v s)))
]

nonempty_settled :
    (u : Unicode) (order : QueryTypes) (v : Validator) (c : ℕ) (s : Bytes) (r : ValidationResult)
    → validate_sql u order v (c ∷ s) ≡ some r
    → IsSettledAt r
unfolding validate_sql
nonempty_settled u order v c s r h = elim (Bool-cases (ltb v.max_query_length (length (c ∷ s)))) [
  | inl long ↦
      some_subst IsSettledAt (rw (long, validate_sql) at h)
        (((λ v. absurd (ground arith), λ e. absurd (ground arith)), refl), λ e. refl)
  | inr short ↦ body_settled u order v (c ∷ s) r (rw (short, validate_sql) at h)
]

-- Every result, for any text: it is valid exactly when it lists no error, no warning is ever recorded, and
-- a result with an error has high risk, but for the empty text: its result has an error and low risk.
pub validate_sql-IsSettled :
    (u : Unicode) (order : QueryTypes) (v : Validator) (s : Bytes) (r : ValidationResult)
    → validate_sql u order v s ≡ some r
    → IsSettled r
      × (r.errors ≢ [] → r.risk ≡ (if is_empty s then low else high))
      × (is_empty s ≡ true → r.errors ≢ [])
unfolding validate_sql
validate_sql-IsSettled u order v [] r h =
    some_subst (λ q. IsSettled q × (q.errors ≢ [] → q.risk ≡ low) × (true ≡ true → q.errors ≢ [])) h
      (
        ((λ v. absurd (ground arith), λ e. absurd (ground arith)), refl),
        λ e. refl,
        λ e. ground arith,
      )
validate_sql-IsSettled u order v (c ∷ s) r h =
    let (settled, risk) = nonempty_settled u order v c s r h in
    (settled, risk, λ e. absurd (ground arith))

abbrev LowIfInvalid : SecurityReport → Type 0
LowIfInvalid q = q.validation_result.is_valid ≡ false → q.security_score ≤ 5

errors-ne-nil : {A : Type 0} (xs : List A) → xs ≢ [] → 0 < length xs
errors-ne-nil [] h = absurd (h refl)
errors-ne-nil (x ∷ xs) h = omega arith

low_score :
    (u : Unicode) (order : QueryTypes) (v : Validator) (c : ℕ) (s : Bytes) (r : ValidationResult)
    → validate_sql u order v (c ∷ s) ≡ some r
    → r.is_valid ≡ false
    → calculate_security_score r ≤ 5
low_score u order v c s r h invalid =
    let settled = nonempty_settled u order v c s r h in
    let bad : r.errors ≢ [] = λ e. ground (arith, settled.0.0.1 e) in
    calculate_security_score_high r (errors-ne-nil r.errors bad) (settled.1 bad)

-- A non-empty text that is not valid scores 5 at most in its report.
get_security_report_invalid :
    (u : Unicode) (order : QueryTypes) (v : Validator) (c : ℕ) (s : Bytes) (rep : SecurityReport)
    → get_security_report u order v (c ∷ s) ≡ some rep
    → rep.validation_result.is_valid ≡ false
    → rep.security_score ≤ 5
unfolding get_security_report
get_security_report_invalid u order v c s rep h invalid =
    elim (Option-cases (validate_sql u order v (c ∷ s))) [
      | inl e ↦ absurd (ground arith)
      | inr (r, e) ↦
          some_subst LowIfInvalid (rw (e, get_security_report) at h) (low_score u order v c s r e)
            invalid
    ]

-- In whatever orders the map of query types is iterated, the result is the same.
pub validate_sql-perm :
    (u : Unicode) (order : QueryTypes) (v : Validator) (s : Bytes)
    → Perm query_types order
    → validate_sql u order v s ≡ validate_sql u query_types v s
unfolding validate_sql validate_body run_checks
validate_sql-perm u order v [] p = refl
validate_sql-perm u order v (c ∷ s) p =
    rw (detect_query_type-perm u order (clean_sql u v (c ∷ s)) p)

strict_iff :
    (r : ValidationResult)
    → IsSettledAt r
    → (some (if not r.is_valid then r.errors else r.warnings) ≡ some []) ↔ (r.is_valid ≡ true)
strict_iff r h = ground arith

-- `ValidateSQLStrict` returns no error exactly for the texts that are valid.
validate_sql_strict_iff :
    (u : Unicode) (order : QueryTypes) (v : Validator) (c : ℕ) (s : Bytes) (r : ValidationResult)
    → validate_sql u order v (c ∷ s) ≡ some r
    → (validate_sql_strict u order v (c ∷ s) ≡ some []) ↔ (r.is_valid ≡ true)
unfolding validate_sql_strict
validate_sql_strict_iff u order v c s r h =
    let settled = nonempty_settled u order v c s r h in rw h (strict_iff r settled)
