-- ===== src/SqlSecurity/Config.antt =====
-- internal/service/sql_security.go: the configuration, the validator that is built from it, and the
-- result of a validation. Messages are values here; the code formats them as text.
use chat2sql.Prelude.{
  ℕ, Bool, true, Bytes, codes, String, List, [], ◌∷◌, ◌++◌, map, ◌==◌, if◌then◌else◌, any,
  same_bytes, Unicode, to_upper,
}
use chat2sql.Regexp.{Pattern}
use chat2sql.SqlSecurity.Patterns.{injection_patterns, comment_patterns}

pub data RiskLevel : Type 0 where
  low medium high : RiskLevel

-- `SecurityViolation`: its type, with the context as an argument.
pub data Violation : Type 0 where
  forbidden_keyword sql_injection : Bytes → Violation
  encoding_attack : Violation

pub data ValidationError : Type 0 where
  empty_query : ValidationError
  query_too_long too_many_statements : ℕ → ValidationError
  unsupported_statement : Bytes → ValidationError
  violation : Violation → ValidationError

pub record ValidationResult : Type 0 where
  pub is_valid : Bool
  pub query_type : Bytes
  pub is_read_only : Bool
  pub errors : List ValidationError
  pub warnings : List ValidationError
  pub tables_used : List Bytes
  pub risk : RiskLevel

-- A limit that is 0 or less in the code is 0 here.
pub record SqlSecurityConfig : Type 0 where
  pub allowed_statements : List Bytes
  pub forbidden_keywords : List Bytes
  pub max_statements : ℕ
  pub max_query_length : ℕ
  pub strict_mode : Bool

pub record Validator : Type 0 where
  pub allowed_statements : List Bytes
  pub forbidden_keywords : List Bytes
  pub max_statements : ℕ
  pub max_query_length : ℕ
  pub sql_injection_patterns : List Pattern
  pub comment_patterns : List Pattern

abbrev texts : List String → List Bytes
texts = map codes

abbrev pub default_statements : List Bytes
default_statements = texts ("SELECT" ∷ "WITH" ∷ "EXPLAIN" ∷ "SHOW" ∷ [])

abbrev pub basic_forbidden : List Bytes
basic_forbidden = texts (
    "DROP" ∷ "DELETE" ∷ "INSERT" ∷ "UPDATE" ∷ "CREATE" ∷ "ALTER" ∷ "TRUNCATE" ∷ "GRANT" ∷ "REVOKE"
    ∷ "REPLACE" ∷ "MERGE" ∷ "CALL" ∷ "EXEC" ∷ "EXECUTE" ∷ "DECLARE" ∷ "SET" ∷ [])

abbrev pub strict_forbidden : List Bytes
strict_forbidden = texts (
    "LOAD" ∷ "OUTFILE" ∷ "DUMPFILE" ∷ "INFILE" ∷ "HANDLER" ∷ "PREPARE" ∷ "DEALLOCATE" ∷ "XA"
    ∷ "LOCK" ∷ "UNLOCK" ∷ "FLUSH" ∷ "RESET" ∷ "SHUTDOWN" ∷ "RESTART" ∷ "KILL" ∷ [])

-- The keys of a Go map, in the order of their first insertion.
unfoldable pub add_key : List Bytes → Bytes → List Bytes
unfolding same_bytes
add_key keys k = if any (same_bytes k) keys then keys else keys ++ k ∷ []

unfoldable pub add_keys : List Bytes → List Bytes → List Bytes
unfolding add_key
add_keys keys [] = keys
add_keys keys (k ∷ ks) = add_keys (add_key keys k) ks

-- `addDefaultForbiddenKeywords`: the keys of the map `allForbidden`.
unfoldable pub all_forbidden : Unicode → Bool → List Bytes → List Bytes
unfolding add_keys to_upper
all_forbidden u strict user = add_keys [] (
    map (to_upper u)
      ((if strict then basic_forbidden ++ strict_forbidden else basic_forbidden) ++ user))

abbrev pub default_config : SqlSecurityConfig
default_config = record {
  allowed_statements = default_statements;
  forbidden_keywords = [];
  max_statements = 1;
  max_query_length = 10000;
  strict_mode = true;
}

abbrev statements_or_default : List Bytes → List Bytes
statements_or_default [] = default_statements
statements_or_default (s ∷ ss) = s ∷ ss

-- `NewSQLSecurityValidatorWithConfig`. `order` lists the keys of a map as its iteration does.
unfoldable pub new_validator : Unicode → (List Bytes → List Bytes) → SqlSecurityConfig → Validator
unfolding all_forbidden
new_validator u order c = record {
  allowed_statements = statements_or_default c.allowed_statements;
  forbidden_keywords = order (all_forbidden u c.strict_mode c.forbidden_keywords);
  max_statements = if c.max_statements == 0 then 1 else c.max_statements;
  max_query_length = if c.max_query_length == 0 then 10000 else c.max_query_length;
  sql_injection_patterns = injection_patterns;
  comment_patterns = comment_patterns;
}
