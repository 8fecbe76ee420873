-- ===== src/SqlSecurity/Validate.antt =====
-- internal/service/sql_security.go: `ValidateSQL`, `ValidateSQLStrict`, `GetSecurityReport`.
-- `order` is the order in which the map of query types is iterated; `none` is a run-time panic.
use chat2sql.Prelude.{
  ℕ, true, false, not, Option, some, List, [], ◌∷◌, ◌++◌, map, Bytes, ltb, if◌then◌else◌, length,
  Unicode,
}
use chat2sql.SqlSecurity.Checks.{check_forbidden_keywords, check_sql_injection}
use chat2sql.SqlSecurity.Clean.{clean_sql}
use chat2sql.SqlSecurity.Config.{
  Validator, ValidationError, ValidationResult, empty_query, query_too_long, unsupported_statement,
  violation, low, high,
}
use chat2sql.SqlSecurity.QueryType.{
  QueryTypes, detect_query_type, is_read_only_query, is_allowed_statement,
}
use chat2sql.SqlSecurity.Risk.{assess_advanced_risk, calculate_security_score}
use chat2sql.SqlSecurity.Statements.{check_statement_count}
use chat2sql.SqlSecurity.Tables.{extract_tables, ◌>>=◌}

abbrev pub new_result : ValidationResult
new_result = record {
  is_valid = true;
  query_type = [];
  is_read_only = false;
  errors = [];
  warnings = [];
  tables_used = [];
  risk = low;
}

-- What one of the checks does with the errors that it finds.
unfoldable pub reject : List ValidationError → ValidationResult → ValidationResult
reject [] r = r
reject (e ∷ es) r = record r { is_valid = false; errors = r.errors ++ (e ∷ es); risk = high }

unfoldable pub check_allowed : Unicode → Validator → Bytes → List ValidationError
check_allowed u v t =
    if is_allowed_statement u v.allowed_statements t then [] else unsupported_statement t ∷ []

-- Steps 2 to 7.
unfoldable pub run_checks : Unicode → QueryTypes → Validator → Bytes → Bytes → ValidationResult
run_checks u order v s cleaned =
    let counted = reject (check_statement_count v s) new_result in
    let query_type = detect_query_type u order cleaned in
    let typed = record counted {
      query_type = query_type;
      is_read_only = is_read_only_query query_type;
    } in
    let allowed = reject (check_allowed u v query_type) typed in
    let worded = reject (map violation (check_forbidden_keywords u v cleaned)) allowed in
    reject (map violation (check_sql_injection u v s)) worded

-- Steps 8 and 9: the tables, and the risk in place of the one noted so far.
unfoldable pub finish : Unicode → Bytes → ValidationResult → List Bytes → ValidationResult
finish u cleaned checked tables =
    let listed = record checked { tables_used = tables } in
    record listed { risk = assess_advanced_risk u listed cleaned }

-- Steps 3 to 9, for a text that is neither empty nor too long.
unfoldable pub validate_body : Unicode → QueryTypes → Validator → Bytes → Option ValidationResult
validate_body u order v s =
    let cleaned = clean_sql u v s in
    do
      tables ← extract_tables u cleaned
      some (finish u cleaned (run_checks u order v s cleaned) tables)

abbrev pub too_long_result : Validator → ValidationResult
too_long_result v = record new_result {
  is_valid = false;
  errors = query_too_long v.max_query_length ∷ [];
  risk = high;
}

unfoldable pub validate_sql : Unicode → QueryTypes → Validator → Bytes → Option ValidationResult
validate_sql u order v [] = some (record new_result { is_valid = false; errors = empty_query ∷ [] })
validate_sql u order v (c ∷ s) =
    if ltb v.max_query_length (length (c ∷ s))
    then some (too_long_result v)
    else validate_body u order v (c ∷ s)

-- `ValidateSQLStrict`: no error, or the messages that it joins.
unfoldable pub validate_sql_strict :
    Unicode → QueryTypes → Validator → Bytes → Option (List ValidationError)
validate_sql_strict u order v s = do
  r ← validate_sql u order v s
  some (if not r.is_valid then r.errors else r.warnings)

-- `GetSecurityReport`, without the fields that repeat the result
pub record SecurityReport : Type 0 where
  pub query_length : ℕ
  pub validation_result : ValidationResult
  pub security_score : ℕ

unfoldable pub get_security_report :
    Unicode → QueryTypes → Validator → Bytes → Option SecurityReport
get_security_report u order v s = do
  r ← validate_sql u order v s
  some (record {
    query_length = length s;
    validation_result = r;
    security_score = calculate_security_score r;
  })
