-- ===== src/SqlExecutor/Tests.antt =====
-- internal/service/sql_executor.go: runs of the model.
use chat2sql.Prelude.{
  ℕ, ◌*◌, ◌≡◌, refl, false, none, some, List, [], ◌∷◌, map, codes, ok, err, pos, negsuc, ◌≤◌, ◌<◌,
  length, inr, Unicode, to_upper, trim_space, fields, words, trim, trim_left, index, has_prefix,
  same_bytes, insert, arith,
}
use chat2sql.SqlExecutor.Execute.{QueryRows, finish, execute_query_on_pool, execute_query}
use chat2sql.SqlExecutor.Info.{after_last_dot, first_table, extract_from_tables}
use chat2sql.SqlExecutor.Limits.{read_rows-wrapped}
use chat2sql.SqlExecutor.Longest.{IsLongest, read_rows-IsLongest}
use chat2sql.SqlExecutor.Reported.{IsReported, execute_query-IsReported}
use chat2sql.SqlExecutor.Rows.{warned, read_rows, load_row}
use chat2sql.SqlExecutor.Values.{
  Driver, other, Row, row_data, convert_value, base64, values_failed, rows_truncated,
  size_truncated, SqlExecutor, new_sql_executor, max_size_bytes, int32,
}

-- Every text is ASCII here, and a row has ten bytes for each field.
abbrev ascii : Unicode
ascii = record {
  upper = λ s. s;
  lower = λ s. s;
  trim_spaces = λ s. s;
  split_fields = λ s. s ∷ [];
  folds_equal = λ s t. false;
  unprintable = λ s. false;
}

abbrev driver : Driver
driver = record {
  Time = Unit;
  Other = ℕ;
  rfc3339 = λ t. codes "2024-01-01T00:00:00Z";
  marshal = λ row. some (10 * length row);
}

abbrev two_rows : SqlExecutor
two_rows = record { query_timeout = 1; max_rows = 2; max_result_mb = 10 }

abbrev huge : SqlExecutor
huge = record { query_timeout = 1; max_rows = 1000; max_result_mb = 2048 }

abbrev field : ℕ → Row driver
field n = (codes "id", some (inr n)) ∷ []

abbrev fields_of : List (Row driver × ℕ)
fields_of = (field 1, 10) ∷ (field 2, 10) ∷ (field 3, 10) ∷ []

read_rows-IsLongest_example :
    IsLongest driver two_rows 0 0 fields_of (read_rows driver two_rows 0 0 (map ok fields_of))
read_rows-IsLongest_example = read_rows-IsLongest driver two_rows fields_of (omega arith)

read_rows-wrapped_example :
    (2048 < 2048 → max_size_bytes huge ≡ pos (2048 * 1_048_576))
    × (2048 ≤ 2048
        → (max_size_bytes huge ≡ negsuc 2_147_483_647)
          × (read_rows driver huge 0 0 (ok (field 1, 10) ∷ [])
              ≡ record { rows = []; count = 0; stop = warned (size_truncated 2048) }))
read_rows-wrapped_example = read_rows-wrapped driver huge (field 1) 10 [] (omega arith)

abbrev answered : QueryRows driver
answered = record {
  columns = codes "id" ∷ [];
  fetched = ok (other 1 ∷ []) ∷ err (codes "lost") ∷ [];
  final_error = none;
}

execute_query-IsReported_example :
    IsReported two_rows
      (execute_query driver ascii two_rows (codes "select 1") (ok (ok answered)) 12)
execute_query-IsReported_example =
    execute_query-IsReported driver ascii two_rows (codes "select 1") (ok (ok answered)) 12

-- The third row is cut off; a row that is lost leaves a count of zero beside the row before it; a table has no
-- schema, and binary data are a text.
program : Unit {0}
unfolding read_rows max_size_bytes int32 new_sql_executor execute_query execute_query_on_pool finish
    load_row row_data convert_value insert same_bytes extract_from_tables first_table after_last_dot
    index has_prefix to_upper trim_space trim trim_left fields words base64
program =
    let cut : (read_rows driver two_rows 0 0 (map ok fields_of)).stop ≡ warned (rows_truncated 2) =
      refl in
    let lost = execute_query driver ascii two_rows (codes "select 1") (ok (ok answered)) 12 in
    let count : lost.row_count ≡ 0 = refl in
    let kept : lost.rows ≡ field 1 ∷ [] = refl in
    let told : lost.error ≡ some (values_failed (codes "lost")) = refl in
    let table : extract_from_tables ascii (codes "select * from public.users;")
        ≡ some (codes "users" ∷ []) =
      refl in
    let text : base64 (codes "Man") ≡ codes "TWFu" = refl in
    let padded : base64 (codes "Ma") ≡ codes "TWE=" = refl in tt
