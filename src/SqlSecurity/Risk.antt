-- ===== src/SqlSecurity/Risk.antt =====
-- internal/service/sql_security.go: `assessAdvancedRisk` and `calculateSecurityScore`.
use chat2sql.Prelude.{
  ℕ, ◌+◌, ◌-◌, ◌*◌, ◌≤◌, ◌<◌, ◌≡◌, Bool, not, ◌&&◌, ◌||◌, List, [], ◌∷◌, ◌++◌, Bytes, String, codes,
  arith, leb, ltb, if◌then◌else◌, length, contains, count, count_from, same_bytes, Unicode,
  to_upper,
}
use chat2sql.SqlSecurity.Config.{ValidationResult, RiskLevel, low, medium, high}

abbrev weigh : Bool → ℕ → ℕ
weigh b n = if b then n else 0

-- `strings.Contains(upperSQL, …)`
unfoldable pub has : String → Bytes → Bool
unfolding contains
has w s = contains (codes w) s

-- One weight for each text of the list that occurs, followed by `suffix`.
unfoldable pub weigh_each : List String → Bytes → ℕ → Bytes → ℕ
unfolding contains
weigh_each [] suffix n s = 0
weigh_each (w ∷ ws) suffix n s = weigh (contains (codes w ++ suffix) s) n + weigh_each ws suffix n s

unfoldable pub content_score : Bytes → ℕ
unfolding has weigh_each count_from
content_score s =
    weigh (has "UNION" s) 30
    + weigh (has "SUBQUERY" s || ltb 2 (count (codes "(") s)) 15
    + weigh (has "CASE" s || has "WHEN" s) 10
    + weigh_each ("CONCAT" ∷ "CHAR" ∷ "ASCII" ∷ "SUBSTRING" ∷ "LENGTH" ∷ "VERSION" ∷ []) (codes "(")
        8 s
    + weigh_each ("COUNT" ∷ "SUM" ∷ "AVG" ∷ "MAX" ∷ "MIN" ∷ "GROUP_CONCAT" ∷ []) (codes "(") 5 s
    + weigh (has "LIKE" s && has "%" s) 5
    + weigh (has "ORDER BY" s && (has "RAND()" s || has "RANDOM()" s)) 15
    + weigh_each
        ("JOIN" ∷ "LEFT JOIN" ∷ "RIGHT JOIN" ∷ "INNER JOIN" ∷ "OUTER JOIN" ∷ "FULL JOIN" ∷ []) [] 8
        s
    + weigh (has "GROUP BY" s) 6
    + weigh (has "HAVING" s) 8

unfoldable pub length_score : ℕ → ℕ
length_score n = if ltb 1000 n then 20 else if ltb 500 n then 10 else 0

unfoldable pub special_score : Bytes → ℕ
unfolding count_from
special_score s =
    let special =
      count (codes "'") s + count (codes "\"") s + count (codes ";") s + count (codes "--") s in
    if ltb 5 special then special * 2 else 0

unfoldable pub risk_score : Unicode → ValidationResult → Bytes → ℕ
unfolding content_score length_score special_score same_bytes to_upper
risk_score u r s =
    content_score (to_upper u s)
    + weigh (ltb 3 (length r.tables_used)) 10
    + weigh (same_bytes r.query_type (codes "EXPLAIN")) 5
    + length r.warnings * 12
    + length_score (length s)
    + special_score s

unfoldable pub risk_level : ℕ → RiskLevel
risk_level n = if leb 60 n then high else if leb 25 n then medium else low

unfoldable pub assess_advanced_risk : Unicode → ValidationResult → Bytes → RiskLevel
unfolding risk_score risk_level
assess_advanced_risk u r s = if ltb 0 (length r.errors) then high else risk_level (risk_score u r s)

unfoldable pub risk_penalty : RiskLevel → ℕ
risk_penalty high = 60
risk_penalty medium = 25
risk_penalty low = 5

-- What the steps of `calculateSecurityScore` take away. No step gives anything back, so that the
-- code's cut at 0 after the last step is the cut of `-` in `calculate_security_score`.
unfoldable pub score_penalty : ValidationResult → ℕ
unfolding risk_penalty
score_penalty r =
    length r.errors * 35
    + weigh (ltb 2 (length r.errors)) ((length r.errors - 2) * 10)
    + length r.warnings * 8
    + weigh (ltb 3 (length r.warnings)) ((length r.warnings - 3) * 5)
    + risk_penalty r.risk
    + weigh (not r.is_read_only) 15
    + weigh (ltb 2 (length r.tables_used)) ((length r.tables_used - 2) * 3)

risk_penalty-le : (l : RiskLevel) → 5 ≤ risk_penalty l
unfolding risk_penalty
risk_penalty-le high = omega arith
risk_penalty-le medium = omega arith
risk_penalty-le low = omega arith

unfoldable pub calculate_security_score : ValidationResult → ℕ
unfolding score_penalty
calculate_security_score r =
    let score = 100 - score_penalty r in if ltb 100 score then 100 else score

-- No result scores above 95, and each error takes at least 35 from that.
calculate_security_score-le :
    (r : ValidationResult) → calculate_security_score r ≤ 95 - length r.errors * 35
unfolding calculate_security_score
calculate_security_score-le r = ground (arith, risk_penalty-le r.risk)

-- A result with an error and high risk scores at most 5.
pub calculate_security_score_high :
    (r : ValidationResult) → 0 < length r.errors → r.risk ≡ high → calculate_security_score r ≤ 5
unfolding calculate_security_score
calculate_security_score_high r h e = ground arith
