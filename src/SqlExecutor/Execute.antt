-- ===== src/SqlExecutor/Execute.antt =====
-- internal/service/sql_executor.go: `ExecuteQuery` and `executeQueryOnPool`.
use chat2sql.Prelude.{
  ℕ, Option, none, some, List, [], ◌∷◌, map, Bytes, Outcome, ok, err, ℤ, pos, Unicode,
}
use chat2sql.SqlExecutor.Info.{detect_sql_type}
use chat2sql.SqlExecutor.Rows.{Stop, finished, warned, failed, Read, load_row, read_rows}
use chat2sql.SqlExecutor.Values.{
  Driver, Value, Row, Failure, connection_failed, iteration_failed, Warning, Status, success,
  query_error, SqlExecutor, int32,
}

module _ (D : Driver) where
  -- What the driver answers to a query: the columns, each row, and what `rows.Err()` gives behind the loop,
  -- wherever that ends.
  pub record QueryRows : Type 0 where
    pub columns : List Bytes
    pub fetched : List (Outcome Bytes (List (Value D)))
    pub final_error : Option Bytes

  pub record QueryResult : Type 0 where
    pub columns : List Bytes
    pub rows : List (Row D)
    pub row_count : ℕ
    pub execution_time : ℤ
    pub query_type : Bytes
    pub status : Status
    pub error : Option Failure
    pub warnings : List Warning

  abbrev pub failed_with : Failure → QueryResult → QueryResult
  failed_with f r = record r { status = query_error; error = some f }

  -- The count is set after the loop, not when a row fails.
  abbrev pub counted : Read D → QueryResult → QueryResult
  counted out r = record r { rows = out.rows; row_count = out.count }

  abbrev pub checked : Option Bytes → QueryResult → QueryResult
  checked none r = r
  checked (some e) r = failed_with (iteration_failed e) r

  unfoldable pub finish : Option Bytes → Stop → Read D → QueryResult → QueryResult
  finish final_error (failed f) out r = failed_with f (record r { rows = out.rows })
  finish final_error (warned w) out r =
      checked final_error (record (counted out r) { warnings = w ∷ [] })
  finish final_error finished out r = checked final_error (counted out r)

  unfoldable pub execute_query_on_pool :
      Unicode → SqlExecutor → Bytes → Outcome Failure QueryRows → QueryResult
  unfolding read_rows load_row finish detect_sql_type
  execute_query_on_pool u e sql answer =
      let result : QueryResult = record {
        columns = [];
        rows = [];
        row_count = 0;
        execution_time = pos 0;
        query_type = detect_sql_type u sql;
        status = success;
        error = none;
        warnings = [];
      } in
      elim answer [
        | err f ↦ failed_with f result
        | ok rows ↦
            let out = read_rows D e 0 0 (map (load_row D rows.columns) rows.fetched) in
            finish rows.final_error out.stop out (record result { columns = rows.columns })
      ]

  -- The pool of the connection is an answer, or an error; the time is in milliseconds.
  unfoldable pub execute_query :
      Unicode → SqlExecutor → Bytes → Outcome Bytes (Outcome Failure QueryRows) → ℕ → QueryResult
  unfolding execute_query_on_pool int32
  execute_query u e sql pool elapsed = elim pool [
    | err message ↦ record {
      columns = [];
      rows = [];
      row_count = 0;
      execution_time = int32 elapsed;
      query_type = [];
      status = query_error;
      error = some (connection_failed message);
      warnings = [];
    }
    | ok answer ↦ record (execute_query_on_pool u e sql answer) { execution_time = int32 elapsed }
  ]
