-- ===== src/SqlExecutor/Longest.antt =====
-- internal/service/sql_executor.go: which rows the loop of `executeQueryOnPool` keeps, when all can be read.
use chat2sql.Prelude.{
  ℕ, suc, ◌+◌, ◌*◌, ◌≤◌, ◌<◌, ◌≡◌, refl, ap, ◌∙◌, true, false, List, [], ◌∷◌, map, ok, leb, ltb,
  length, take, inl, inr, Bool-cases, arith,
}
use chat2sql.SqlExecutor.Limits.{max_size_bytes-exact}
use chat2sql.SqlExecutor.Rows.{Stop, finished, warned, exceeds, Read, keeping, read_rows}
use chat2sql.SqlExecutor.Values.{
  Driver, Row, rows_truncated, size_truncated, SqlExecutor, max_size_bytes,
}

module _ (D : Driver) (e : SqlExecutor) where
  abbrev pub row_of : Row D × ℕ → Row D
  row_of (row, size) = row

  abbrev pub total_size : List (Row D × ℕ) → ℕ
  total_size [] = 0
  total_size ((row, size) ∷ rs) = size + total_size rs

  -- Why no further row is kept.
  pub data Ending (count total : ℕ) (rs : List (Row D × ℕ)) (n : ℕ) : Stop → Type 0 where
    no_more : n ≡ length rs → Ending count total rs n finished
    row_limit :
        n < length rs
        → count + n ≡ e.max_rows
        → Ending count total rs n (warned (rows_truncated e.max_rows))
    size_limit :
        n < length rs
        → exceeds (total + total_size (take (suc n) rs)) (max_size_bytes e) ≡ true
        → Ending count total rs n (warned (size_truncated e.max_result_mb))

  -- The rows are counted, they are the first of the result, as many as both limits let in, and the ending says which one
  -- kept the next row out.
  pub record IsLongest (count total : ℕ) (rs : List (Row D × ℕ)) (out : Read D) : Type 0 where
    pub counted : out.count ≡ count + length out.rows
    pub prefix : out.rows ≡ map row_of (take (length out.rows) rs)
    pub within_rows : count + length out.rows ≤ e.max_rows
    pub within_size :
        exceeds (total + total_size (take (length out.rows) rs)) (max_size_bytes e) ≡ false
    pub ending : Ending count total rs (length out.rows) out.stop

  nothing-IsLongest :
      (count total : ℕ) (rs : List (Row D × ℕ)) (stop : Stop)
      → count ≤ e.max_rows
      → exceeds total (max_size_bytes e) ≡ false
      → Ending count total rs 0 stop
      → IsLongest count total rs (record { rows = []; count = count; stop = stop })
  nothing-IsLongest count total rs stop within small ending = record {
    counted = omega arith;
    prefix = refl;
    within_rows = omega arith;
    within_size = ap (λ n. exceeds n (max_size_bytes e)) (total_zero total) ∙ small;
    ending = ending;
  }
    where
      total_zero : (n : ℕ) → n + 0 ≡ n
      total_zero n = omega arith

  later-Ending :
      (count total : ℕ) (row : Row D) (size : ℕ) (rs : List (Row D × ℕ)) (n : ℕ) (stop : Stop)
      → Ending (suc count) (total + size) rs n stop
      → Ending count total ((row, size) ∷ rs) (suc n) stop
  later-Ending count total row size rs n finished (no_more h) = no_more (ap suc h)
  later-Ending count total row size rs n _ (row_limit h k) = row_limit (omega arith) (omega arith)
  later-Ending count total row size rs n _ (size_limit h k) =
      size_limit (omega arith) (ap (λ m. exceeds m (max_size_bytes e)) (omega arith) ∙ k)

  keeping-IsLongest :
      (count total : ℕ) (row : Row D) (size : ℕ) (rs : List (Row D × ℕ)) (out : Read D)
      → IsLongest (suc count) (total + size) rs out
      → IsLongest count total ((row, size) ∷ rs) (keeping D row out)
  keeping-IsLongest count total row size rs out h = record {
    counted = omega (arith, h.counted);
    prefix = ap (λ rows. row ∷ rows) h.prefix;
    within_rows = omega (arith, h.within_rows);
    within_size =
        ap (λ m. exceeds m (max_size_bytes e))
          (assoc total size (total_size (take (length out.rows) rs)))
        ∙ h.within_size;
    ending = later-Ending count total row size rs (length out.rows) out.stop h.ending;
  }
    where
      assoc : (a b c : ℕ) → a + (b + c) ≡ a + b + c
      assoc a b c = omega arith

  read_rows-step :
      (rs : List (Row D × ℕ)) (count total : ℕ)
      → count ≤ e.max_rows
      → exceeds total (max_size_bytes e) ≡ false
      → IsLongest count total rs (read_rows D e count total (map ok rs))
  unfolding read_rows
  read_rows-step [] count total within small =
      nothing-IsLongest count total [] finished within small (no_more refl)
  read_rows-step ((row, size) ∷ rs) count total within small =
      elim (Bool-cases (leb e.max_rows count)) [
        | inl full ↦ rw full (
            nothing-IsLongest count total _ _ within small (row_limit (omega arith) (ground arith)))
        | inr room ↦ elim (Bool-cases (exceeds (total + size) (max_size_bytes e))) [
          | inl over ↦
              rw (room, over)
                (nothing-IsLongest count total _ _ within small (
                  size_limit (omega arith)
                    (ap (λ m. exceeds m (max_size_bytes e)) (one total size) ∙ over)))
          | inr fits ↦
              rw (room, fits)
                (keeping-IsLongest count total row size rs _
                  (read_rows-step rs (suc count) (total + size) (ground arith) fits))
        ]
      ]
    where
      one : (a b : ℕ) → a + (b + 0) ≡ a + b
      one a b = omega arith

-- With a limit under 2048 megabytes, the rows that are kept of a result that can be read are its first ones,
-- as many as the limits of rows and of bytes let in, the count is theirs, and there is a warning exactly when a limit kept the
-- next row out.
pub read_rows-IsLongest :
    (D : Driver) (e : SqlExecutor) (rs : List (Row D × ℕ))
    → e.max_result_mb < 2048
    → IsLongest D e 0 0 rs (read_rows D e 0 0 (map ok rs))
read_rows-IsLongest D e rs small =
    read_rows-step D e rs 0 0 (omega arith)
      (rw (max_size_bytes-exact e small) (within (e.max_result_mb * 1_048_576)))
  where
    within : (m : ℕ) → ltb m 0 ≡ false
    within m = ground arith
