-- ===== src/SqlSecurity/Checks.antt =====
-- internal/service/sql_security.go: `checkForbiddenKeywords`, `checkSQLInjection` and
-- `containsSuspiciousEncoding`, each against the texts in which something occurs.
use chat2sql.Prelude.{
  ◌≡◌, refl, ◌↔◌, inl, inr, Bool, true, false, none, List, [], ◌∷◌, ◌++◌, Bytes, codes, arith,
  count, ltb, if◌then◌else◌, Unicode, to_upper, has_unprintable, All, map, append-eq-nil,
  Bool-cases,
}
use chat2sql.Regexp.{Pattern, edge, literal, match_string, find_all}
use chat2sql.Regexp.Search.{Occurs, match_string_iff, find_all_iff}
use chat2sql.SqlSecurity.Config.{
  Validator, Violation, forbidden_keyword, sql_injection, encoding_attack,
}
use chat2sql.SqlSecurity.Patterns.{hex_pattern}

-- `\b` keyword `\b`, the keyword quoted by `QuoteMeta`
unfoldable pub whole_word : Bytes → Pattern
unfolding literal
whole_word k = edge ∷ (literal k ++ edge ∷ [])

unfoldable pub keyword_violations : List Bytes → Bytes → List Violation
unfolding match_string whole_word
keyword_violations [] s = []
keyword_violations (k ∷ ks) s =
    (if match_string (whole_word k) none s then forbidden_keyword k ∷ [] else [])
    ++ keyword_violations ks s

unfoldable pub check_forbidden_keywords : Unicode → Validator → Bytes → List Violation
unfolding keyword_violations to_upper
check_forbidden_keywords u v s = keyword_violations v.forbidden_keywords (to_upper u s)

unfoldable pub contains_suspicious_encoding : Unicode → Bytes → Bool
unfolding has_unprintable match_string hex_pattern
contains_suspicious_encoding u s =
    if has_unprintable u s
    then true
    else if match_string hex_pattern none s
    then ltb 2 (count (codes "0x") s)
    else false

unfoldable pub injection_violations : List Pattern → Bytes → List Violation
unfolding find_all
injection_violations [] s = []
injection_violations (p ∷ ps) s =
    map sql_injection (find_all p none 0 s) ++ injection_violations ps s

unfoldable pub check_sql_injection : Unicode → Validator → Bytes → List Violation
unfolding injection_violations contains_suspicious_encoding
check_sql_injection u v s =
    injection_violations v.sql_injection_patterns s
    ++ (if contains_suspicious_encoding u s then encoding_attack ∷ [] else [])

-- No pattern of the list occurs in the text.
abbrev pub NoneOccurs : List Pattern → Bytes → Type 0
NoneOccurs ps s = All (λ p. ¬ Occurs p none s) ps

keyword_violations→ :
    (ks : List Bytes) (s : Bytes) → keyword_violations ks s ≡ [] → NoneOccurs (map whole_word ks) s
unfolding keyword_violations
keyword_violations→ [] s h = tt
keyword_violations→ (k ∷ ks) s h = (
  λ o. ground (arith, (match_string_iff (whole_word k) none s).1 o),
  keyword_violations→ ks s (append-eq-nil _ _ h).1,
)

keyword_violations← :
    (ks : List Bytes) (s : Bytes) → NoneOccurs (map whole_word ks) s → keyword_violations ks s ≡ []
unfolding keyword_violations
keyword_violations← [] s h = refl
keyword_violations← (k ∷ ks) s h = elim (Bool-cases (match_string (whole_word k) none s)) [
  | inl e ↦ absurd (h.0 ((match_string_iff (whole_word k) none s).0 e))
  | inr e ↦ rw (e, keyword_violations← ks s h.1)
]

-- No violation is reported exactly when no forbidden keyword stands in the text as a whole word.
pub check_forbidden_keywords_iff :
    (u : Unicode) (v : Validator) (s : Bytes)
    → (check_forbidden_keywords u v s ≡ [])
      ↔ NoneOccurs (map whole_word v.forbidden_keywords) (to_upper u s)
unfolding check_forbidden_keywords
check_forbidden_keywords_iff u v s =
    (keyword_violations→ v.forbidden_keywords _, keyword_violations← v.forbidden_keywords _)

map-eq-nil : {A B : Type 0} (f : A → B) (xs : List A) → map f xs ≡ [] → xs ≡ []
map-eq-nil f [] h = refl
map-eq-nil f (x ∷ xs) h = cc

injection_violations→ :
    (ps : List Pattern) (s : Bytes) → injection_violations ps s ≡ [] → NoneOccurs ps s
unfolding injection_violations
injection_violations→ [] s h = tt
injection_violations→ (p ∷ ps) s h =
    let (now, rest) = append-eq-nil _ _ h in
    ((find_all_iff p none s).0 (map-eq-nil _ _ now), injection_violations→ ps s rest)

injection_violations← :
    (ps : List Pattern) (s : Bytes) → NoneOccurs ps s → injection_violations ps s ≡ []
unfolding injection_violations
injection_violations← [] s h = refl
injection_violations← (p ∷ ps) s h =
    rw ((find_all_iff p none s).1 h.0, injection_violations← ps s h.1)

-- No violation is reported exactly when no injection pattern occurs and the encoding is not
-- suspicious.
pub check_sql_injection_iff :
    (u : Unicode) (v : Validator) (s : Bytes)
    → (check_sql_injection u v s ≡ [])
      ↔ (NoneOccurs v.sql_injection_patterns s × (contains_suspicious_encoding u s ≡ false))
unfolding check_sql_injection
check_sql_injection_iff u v s = (
  λ h.
      let (patterns, encoding) = append-eq-nil _ _ h in
      (injection_violations→ v.sql_injection_patterns s patterns, ground arith),
  λ h. rw (injection_violations← v.sql_injection_patterns s h.0, h.1),
)
