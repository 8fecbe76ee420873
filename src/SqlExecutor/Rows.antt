-- ===== src/SqlExecutor/Rows.antt =====
-- internal/service/sql_executor.go: the loop of `executeQueryOnPool` over the rows.
use chat2sql.Prelude.{
  ℕ, suc, ◌+◌, Bool, true, none, some, List, [], ◌∷◌, Bytes, Outcome, ok, err, ℤ, pos, negsuc,
  if◌then◌else◌, ltb, leb,
}
use chat2sql.SqlExecutor.Values.{
  Driver, Value, Row, row_data, Failure, values_failed, marshal_failed, Warning, rows_truncated,
  size_truncated, SqlExecutor, max_size_bytes,
}

-- Why the loop ends: no more rows, a limit, or an error.
pub data Stop : Type 0 where
  finished : Stop
  warned : Warning → Stop
  failed : Failure → Stop

abbrev pub exceeds : ℕ → ℤ → Bool
exceeds n (pos m) = ltb m n
exceeds n (negsuc m) = true

module _ (D : Driver) where
  -- The rows that are kept, `rowCount` behind the loop, and why it ends.
  pub record Read : Type 0 where
    pub rows : List (Row D)
    pub count : ℕ
    pub stop : Stop

  -- The values of a row, as a map and with the length of its text.
  unfoldable pub load_row :
      List Bytes → Outcome Bytes (List (Value D)) → Outcome Failure (Row D × ℕ)
  unfolding row_data
  load_row columns (err e) = err (values_failed e)
  load_row columns (ok values) =
      let row = row_data D columns values [] in
      elim (D.marshal row) [ none ↦ err marshal_failed | some size ↦ ok (row, size) ]

  abbrev pub keeping : Row D → Read → Read
  keeping row out = record out { rows = row ∷ out.rows }

  -- `count` rows of `total` bytes are kept already; each answer is what reading the row gives.
  unfoldable pub read_rows : SqlExecutor → ℕ → ℕ → List (Outcome Failure (Row D × ℕ)) → Read
  unfolding max_size_bytes
  read_rows e count total [] = record { rows = []; count = count; stop = finished }
  read_rows e count total (err f ∷ answers) =
      if leb e.max_rows count
      then record { rows = []; count = count; stop = warned (rows_truncated e.max_rows) }
      else record { rows = []; count = count; stop = failed f }
  read_rows e count total (ok (row, size) ∷ answers) =
      let rest = read_rows e (suc count) (total + size) answers in
      if leb e.max_rows count
      then record { rows = []; count = count; stop = warned (rows_truncated e.max_rows) }
      else if exceeds (total + size) (max_size_bytes e)
      then record { rows = []; count = count; stop = warned (size_truncated e.max_result_mb) }
      else keeping row rest
