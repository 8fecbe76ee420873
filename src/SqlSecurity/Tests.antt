-- ===== src/SqlSecurity/Tests.antt =====
-- Runs of the validator on concrete texts.
use mathlib.Core.List.{Perm, reverse, reverse_perm}
use mathlib.Core.List.Perm.{symm}
use chat2sql.Prelude.{
  ◌≡◌, sym, ap, ◌∙◌, ◌≢◌, ◌↔◌, ◌+◌, refl, Bool, true, false, Option, none, some, [], ◌∷◌, ◌++◌, map,
  all, length, Bytes, codes, String, Unicode, is_ascii, to_upper,
}
use chat2sql.Regexp.{replace_all}
use chat2sql.SqlSecurity.Config.{
  Validator, ValidationResult, default_config, new_validator, low, high, RiskLevel,
}
use chat2sql.SqlSecurity.Checks.{
  check_forbidden_keywords, check_sql_injection, check_forbidden_keywords_iff,
  check_sql_injection_iff, NoneOccurs, whole_word, contains_suspicious_encoding,
}
use chat2sql.SqlSecurity.Clean.{clean_sql, strip_comments, squeeze}
use chat2sql.SqlSecurity.Hidden.{strip_comments_accepted}
use chat2sql.SqlSecurity.Outcome.{validate_sql-IsSettled, validate_sql-perm}
use chat2sql.SqlSecurity.Patterns.{comment_patterns, injection_patterns, not_newline}
use chat2sql.SqlSecurity.QueryType.{
  QueryTypes, query_types, detect_query_type, is_read_only_query, is_allowed_statement,
}
use chat2sql.SqlSecurity.Risk.{assess_advanced_risk, calculate_security_score}
use chat2sql.SqlSecurity.Squeeze.{collapse, IsSqueezed, squeeze_lem}
use chat2sql.SqlSecurity.Quotes.{split_text}
use chat2sql.SqlSecurity.Statements.{
  check_statement_count, count_statements, count_statements-Split, separators,
}
use chat2sql.SqlSecurity.Tables.{extract_tables}
use chat2sql.SqlSecurity.Total.{validate_sql-ascii}
use chat2sql.SqlSecurity.Validate.{
  validate_sql, validate_body, run_checks, reject, check_allowed, finish, get_security_report,
  SecurityReport,
}
use chat2sql.SqlSecurity.Verdict.{IsAccepted, validate_sql_iff}

-- Every call is on an ASCII text, so that the tables are not read.
abbrev ascii_only : Unicode
ascii_only = record {
  upper = λ s. s;
  lower = λ s. s;
  trim_spaces = λ s. s;
  split_fields = λ s. s ∷ [];
  folds_equal = λ s t. false;
  unprintable = λ s. false;
}

abbrev standard : Validator
standard = new_validator ascii_only (λ ks. ks) default_config

program : Unit {0}
unfolding validate_sql validate_body run_checks reject check_allowed finish check_forbidden_keywords
    check_sql_injection clean_sql detect_query_type is_read_only_query is_allowed_statement
    assess_advanced_risk calculate_security_score check_statement_count extract_tables new_validator
    replace_all comment_patterns injection_patterns
program = tt

abbrev verdict : String → Option (Bool × RiskLevel)
verdict s = elim (validate_sql ascii_only query_types standard (codes s)) [
  | none ↦ none
  | some r ↦ some (r.is_valid, r.risk)
]

plain_select : verdict "SELECT id, name FROM users WHERE id = 7" ≡ some (true, low)
unfolding program
plain_select = refl

rejected :
    (verdict "SELECT 1; DROP TABLE users" ≡ some (false, high))
    × (verdict "delete from users" ≡ some (false, high))
    × (verdict "SELECT * FROM t WHERE a = '' OR 1=1" ≡ some (false, high))
    × (verdict "" ≡ some (false, low))
unfolding program
rejected = (refl, refl, refl, refl)

-- The words between two quoted comment marks on different lines are not looked at: the statement
-- deletes, and passes as a query.
abbrev hidden_delete : Bytes
hidden_delete =
    codes "WITH a AS (SELECT '/*'"
    ++ (10 ∷ codes "), b AS (DELETE FROM users RETURNING '*/') SELECT 1")

abbrev flags : Option ValidationResult → Option (Bool × Bool)
flags none = none
flags (some r) = some (r.is_valid, r.is_read_only)

hidden_delete_passes :
    flags (validate_sql ascii_only query_types standard hidden_delete) ≡ some (true, true)
unfolding program
hidden_delete_passes = refl

abbrev plain : Bytes
plain = codes "SELECT id, name FROM users WHERE id = 7"

abbrev erasing : Bytes
erasing = codes "delete from users"

-- The table of query types, iterated the other way round.
abbrev backwards : QueryTypes
backwards = reverse query_types

plain_ascii : is_ascii plain ≡ true
plain_ascii = refl

erasing_ascii : is_ascii erasing ≡ true
erasing_ascii = refl

plain_run : (r : ValidationResult) × (validate_sql ascii_only query_types standard plain ≡ some r)
plain_run = validate_sql-ascii ascii_only query_types standard plain plain_ascii

erasing_run :
    (r : ValidationResult) × (validate_sql ascii_only query_types standard erasing ≡ some r)
erasing_run = validate_sql-ascii ascii_only query_types standard erasing erasing_ascii

abbrev report : SecurityReport
report = record {
  query_length = length erasing;
  validation_result = erasing_run.0;
  security_score = calculate_security_score erasing_run.0;
}

erasing-report : get_security_report ascii_only query_types standard erasing ≡ some report
unfolding get_security_report
erasing-report = rw (erasing_run.1, get_security_report) refl

abbrev valid_of : Option ValidationResult → Bool
valid_of none = false
valid_of (some r) = r.is_valid

erasing_verdict : valid_of (validate_sql ascii_only query_types standard erasing) ≡ false
unfolding program
erasing_verdict = refl

plain_verdict : valid_of (validate_sql ascii_only query_types standard plain) ≡ true
unfolding program
plain_verdict = refl

erasing_invalid : erasing_run.0.is_valid ≡ false
erasing_invalid = sym (ap valid_of erasing_run.1) ∙ erasing_verdict

plain_valid : plain_run.0.is_valid ≡ true
plain_valid = sym (ap valid_of plain_run.1) ∙ plain_verdict

plain_line : all not_newline plain ≡ true
plain_line = refl

backwards_perm : Perm query_types backwards
backwards_perm = symm (reverse_perm query_types)

validate_sql_iff_example :
    (plain_run.0.is_valid ≡ true) ↔ IsAccepted ascii_only query_types standard plain
validate_sql_iff_example =
    validate_sql_iff ascii_only query_types standard plain plain_run.0 plain_run.1

validate_sql-IsSettled_example :
    (((erasing_run.0.is_valid ≡ true) ↔ (erasing_run.0.errors ≡ []))
      × (erasing_run.0.warnings ≡ []))
    × (erasing_run.0.errors ≢ [] → erasing_run.0.risk ≡ high)
    × (false ≡ true → erasing_run.0.errors ≢ [])
validate_sql-IsSettled_example =
    validate_sql-IsSettled ascii_only query_types standard (codes "delete from users") erasing_run.0
      erasing_run.1

-- A quoted semicolon, a bare one, and a quote that is never closed.
abbrev two_statements : Bytes
two_statements = codes "SELECT ';'; SELECT '"

count_statements-Split_example :
    count_statements two_statements ≡ 1 + separators (split_text two_statements).pieces
count_statements-Split_example = count_statements-Split two_statements (split_text two_statements)

validate_sql-ascii_example :
    (r : ValidationResult) × (validate_sql ascii_only query_types standard plain ≡ some r)
validate_sql-ascii_example = validate_sql-ascii ascii_only query_types standard plain plain_ascii

validate_sql-perm_example :
    validate_sql ascii_only backwards standard plain
    ≡ validate_sql ascii_only query_types standard plain
validate_sql-perm_example = validate_sql-perm ascii_only backwards standard plain backwards_perm

check_forbidden_keywords_iff_example :
    (check_forbidden_keywords ascii_only standard erasing ≡ [])
    ↔ NoneOccurs (map whole_word standard.forbidden_keywords) (to_upper ascii_only erasing)
check_forbidden_keywords_iff_example = check_forbidden_keywords_iff ascii_only standard erasing

check_sql_injection_iff_example : (check_sql_injection ascii_only standard plain ≡ []) ↔ (
    NoneOccurs standard.sql_injection_patterns plain
    × (contains_suspicious_encoding ascii_only plain ≡ false))
check_sql_injection_iff_example = check_sql_injection_iff ascii_only standard plain

plain-IsAccepted : IsAccepted ascii_only query_types standard plain
plain-IsAccepted = validate_sql_iff_example.0 plain_valid

strip_comments_accepted_example : strip_comments standard.comment_patterns plain ≡ plain
strip_comments_accepted_example =
    strip_comments_accepted ascii_only (λ ks. ks) default_config query_types plain plain-IsAccepted
      plain_line

abbrev spaced : Bytes
spaced = codes "SELECT  id,\tname" ++ 10 ∷ codes " FROM t"

squeeze_lem_example : (squeeze spaced ≡ collapse false spaced) × IsSqueezed (squeeze spaced)
squeeze_lem_example = squeeze_lem spaced
