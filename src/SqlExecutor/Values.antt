-- ===== src/SqlExecutor/Values.antt =====
-- internal/service/sql_executor.go: `SQLExecutorConfig`, `QueryResult` and `convertValue`.
use chat2sql.Prelude.{
  ℕ, ◌+◌, ◌-◌, ◌*◌, ◌/◌, ◌%◌, ◌^◌, Option, none, some, List, [], ◌∷◌, ◌++◌, Bytes, codes, ℤ, pos,
  negsuc, if◌then◌else◌, ltb, ◌==◌, Dict, text_key, insert, ◌⊎◌, inl, inr,
}

-- What the driver and the packages `time` and `encoding/json` answer.
pub record Driver : Type 1 where
  pub Time : Type 0
  pub Other : Type 0
  pub rfc3339 : Time → Bytes
  -- the length of the text of a row
  pub marshal : Dict Bytes (Option (Bytes ⊎ Other)) → Option ℕ

pub data Failure : Type 0 where
  -- a code and a message of the database
  database_error : Bytes → Bytes → Failure
  connection_failed query_failed values_failed iteration_failed : Bytes → Failure
  marshal_failed : Failure

pub data Warning : Type 0 where
  -- the number of rows, or of megabytes, that the result went past
  rows_truncated size_truncated : ℕ → Warning

pub data Status : Type 0 where
  success query_error : Status

pub record SqlExecutor : Type 0 where
  pub query_timeout : ℕ
  pub max_rows : ℕ
  pub max_result_mb : ℕ

pub record SqlExecutorConfig : Type 0 where
  pub query_timeout : ℤ
  pub max_rows : ℤ
  pub max_result_mb : ℤ

unfoldable pub new_sql_executor : SqlExecutor
new_sql_executor = record { query_timeout = 30_000_000_000; max_rows = 1000; max_result_mb = 10 }

-- A setting that is not positive has its default.
abbrev positive_or : ℕ → ℤ → ℕ
positive_or d (pos n) = if ltb 0 n then n else d
positive_or d (negsuc n) = d

unfoldable pub new_sql_executor_with_config : Option SqlExecutorConfig → SqlExecutor
unfolding new_sql_executor
new_sql_executor_with_config none = new_sql_executor
new_sql_executor_with_config (some config) = record {
  query_timeout = positive_or 30_000_000_000 config.query_timeout;
  max_rows = positive_or 1000 config.max_rows;
  max_result_mb = positive_or 10 config.max_result_mb;
}

-- A number of 32 bits with its sign.
unfoldable pub int32 : ℕ → ℤ
int32 n = let low = n % 2 ^ 32 in if ltb low (2 ^ 31) then pos low else negsuc (2 ^ 32 - low - 1)

-- `int64(e.maxResultMB * 1024 * 1024)`: the product has 32 bits.
unfoldable pub max_size_bytes : SqlExecutor → ℤ
unfolding int32
max_size_bytes e = int32 (e.max_result_mb * 1_048_576)

abbrev base64_digit : ℕ → ℕ
base64_digit d =
    if ltb d 26
    then b'A' + d
    else if ltb d 52
    then b'a' + (d - 26)
    else if ltb d 62
    then b'0' + (d - 52)
    else if d == 62
    then b'+'
    else b'/'

-- `base64.StdEncoding.EncodeToString`
unfoldable pub base64 : Bytes → Bytes
base64 [] = []
base64 (a ∷ []) = base64_digit (a / 4) ∷ base64_digit (a % 4 * 16) ∷ b'=' ∷ b'=' ∷ []
base64 (a ∷ b ∷ []) =
    base64_digit (a / 4)
    ∷ base64_digit (a % 4 * 16 + b / 16)
    ∷ base64_digit (b % 16 * 4)
    ∷ b'='
    ∷ []
base64 (a ∷ b ∷ c ∷ s) =
    base64_digit (a / 4)
    ∷ base64_digit (a % 4 * 16 + b / 16)
    ∷ base64_digit (b % 16 * 4 + c / 64)
    ∷ base64_digit (c % 64)
    ∷ base64 s

module _ (D : Driver) where
  pub data Value : Type 0 where
    null : Value
    time : D.Time → Value
    binary json_number : Bytes → Value
    other : D.Other → Value

  -- null, a text, or what was there
  abbrev pub Json : Type 0
  Json = Option (Bytes ⊎ D.Other)

  abbrev pub Row : Type 0
  Row = Dict Bytes Json

  unfoldable pub convert_value : Value → Json
  unfolding base64
  convert_value null = none
  convert_value (time t) = some (inl (D.rfc3339 t))
  convert_value (binary s) = some (inl (codes "base64:" ++ base64 s))
  convert_value (json_number s) = some (inl s)
  convert_value (other v) = some (inr v)

  -- Two columns of one name share a field, and the later value stays.
  unfoldable pub row_data : List Bytes → List Value → Row → Row
  unfolding convert_value insert
  row_data (c ∷ columns) (v ∷ values) row = row_data columns values (insert c (convert_value v) row)
  row_data _ _ row = row
