-- ===== src/SqlExecutor/Reported.antt =====
-- internal/service/sql_executor.go: what `ExecuteQuery` reports.
use chat2sql.Prelude.{
  ℕ, suc, ◌+◌, ◌≤◌, ◌≡◌, ◌≢◌, ◌⊎◌, inl, inr, refl, Option, none, some, List, [], ◌∷◌, map, Bytes,
  Outcome, ok, err, leb, Bool-cases, length, Unicode, arith,
}
use chat2sql.SqlExecutor.Execute.{
  QueryRows, QueryResult, finish, execute_query_on_pool, execute_query,
}
use chat2sql.SqlExecutor.Rows.{
  Stop, finished, warned, failed, exceeds, Read, keeping, read_rows, load_row,
}
use chat2sql.SqlExecutor.Values.{
  Driver, Row, int32, Failure, success, query_error, SqlExecutor, max_size_bytes,
}

module _ {D : Driver} (e : SqlExecutor) where
  -- The count of the loop is that of the rows it keeps, and it stays in the limit.
  record IsCounted (count : ℕ) (out : Read D) : Type 0 where
    counted : out.count ≡ count + length out.rows
    within : out.count ≤ e.max_rows

  keeping-IsCounted :
      (count : ℕ) (row : Row D) (out : Read D)
      → IsCounted (suc count) out
      → IsCounted count (keeping D row out)
  keeping-IsCounted count row out h = record {
    counted = omega (arith, h.counted);
    within = h.within;
  }

  nothing-IsCounted :
      (count : ℕ) (stop : Stop)
      → count ≤ e.max_rows
      → IsCounted count (record { rows = []; count = count; stop = stop })
  nothing-IsCounted count stop within = record { counted = omega arith; within = within }

  read_rows-IsCounted :
      (answers : List (Outcome Failure (Row D × ℕ))) (count total : ℕ)
      → count ≤ e.max_rows
      → IsCounted count (read_rows D e count total answers)
  unfolding read_rows
  read_rows-IsCounted [] count total within = nothing-IsCounted count finished within
  read_rows-IsCounted (err f ∷ answers) count total within =
      elim (Bool-cases (leb e.max_rows count)) [
        | inl full ↦ rw full (nothing-IsCounted count _ within)
        | inr room ↦ rw room (nothing-IsCounted count _ within)
      ]
  read_rows-IsCounted (ok (row, size) ∷ answers) count total within =
      elim (Bool-cases (leb e.max_rows count)) [
        | inl full ↦ rw full (nothing-IsCounted count _ within)
        | inr room ↦ elim (Bool-cases (exceeds (total + size) (max_size_bytes e))) [
          | inl over ↦ rw (room, over) (nothing-IsCounted count _ within)
          | inr fits ↦
              rw (room, fits)
                (keeping-IsCounted count row _
                  (read_rows-IsCounted answers (suc count) (total + size) (ground arith)))
        ]
      ]

  -- A success has no error, an error is told. The rows are at most `max_rows`, and the count is theirs;
  -- it is zero where an error cut the reading short.
  pub data IsReported (r : QueryResult D) : Type 0 where
    succeeded :
        r.status ≡ success
        → r.error ≡ none
        → r.row_count ≡ length r.rows
        → r.row_count ≤ e.max_rows
        → length r.warnings ≤ 1
        → IsReported r
    failing :
        r.status ≡ query_error
        → r.error ≢ none
        → (r.row_count ≡ length r.rows) ⊎ (r.row_count ≡ 0)
        → length r.rows ≤ e.max_rows
        → length r.warnings ≤ 1
        → IsReported r

  finish-IsReported :
      (final_error : Option Bytes) (stop : Stop) (out : Read D) (r : QueryResult D)
      → IsCounted 0 out
      → r.status ≡ success
      → r.error ≡ none
      → r.row_count ≡ 0
      → r.warnings ≡ []
      → IsReported (finish D final_error stop out r)
  unfolding finish
  finish-IsReported final_error (failed f) out r h s n z w =
      failing refl (ground arith) (inr z) (omega (arith, h.counted, h.within)) (rw w (omega arith))
  finish-IsReported none (warned m) out r h s n z w =
      succeeded s n (omega (arith, h.counted)) h.within (omega arith)
  finish-IsReported none finished out r h s n z w =
      succeeded s n (omega (arith, h.counted)) h.within (rw w (omega arith))
  finish-IsReported (some m) (warned _) out r h s n z w =
      failing refl (ground arith) (inl (omega (arith, h.counted)))
        (omega (arith, h.counted, h.within)) (omega arith)
  finish-IsReported (some m) finished out r h s n z w =
      failing refl (ground arith) (inl (omega (arith, h.counted)))
        (omega (arith, h.counted, h.within)) (rw w (omega arith))

-- Whatever the pool and the database answer, the result is a success without an error, whose count is the number
-- of its rows and at most the limit of rows, or an error that is told, with at most that many rows, whose
-- count is that of its rows or zero; there is at most one warning.
pub execute_query-IsReported :
    (D : Driver) (u : Unicode) (e : SqlExecutor) (sql : Bytes)
    (pool : Outcome Bytes (Outcome Failure (QueryRows D))) (elapsed : ℕ)
    → IsReported e (execute_query D u e sql pool elapsed)
unfolding execute_query execute_query_on_pool
execute_query-IsReported D u e sql (err message) elapsed =
    failing refl (ground arith) (inl refl) (omega arith) (omega arith)
execute_query-IsReported D u e sql (ok (err f)) elapsed =
    failing refl (ground arith) (inl refl) (omega arith) (omega arith)
execute_query-IsReported D u e sql (ok (ok rows)) elapsed =
    let answers = map (load_row D rows.columns) rows.fetched in
    let out = read_rows D e 0 0 answers in
    let counted = read_rows-IsCounted e answers 0 0 (omega arith) in
    retimed (finish-IsReported e rows.final_error out.stop out _ counted refl refl refl refl)
  where
    retimed :
        {r : QueryResult D}
        → IsReported e r
        → IsReported e (record r { execution_time = int32 elapsed })
    retimed (succeeded s n c l w) = succeeded s n c l w
    retimed (failing s n c l w) = failing s n c l w
