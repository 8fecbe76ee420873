-- ===== src/SqlExecutor/Limits.antt =====
-- internal/service/sql_executor.go: the limit of bytes, which is computed in 32 bits.
use chat2sql.Prelude.{
  ℕ, ◌-◌, ◌*◌, ◌%◌, ◌^◌, ◌≤◌, ◌<◌, ◌≡◌, true, false, List, [], ◌∷◌, Outcome, ok, pos, negsuc, ltb,
  leb, arith,
}
use chat2sql.SqlExecutor.Rows.{warned, read_rows}
use chat2sql.SqlExecutor.Values.{
  Driver, Row, Failure, size_truncated, SqlExecutor, int32, max_size_bytes,
}

int32-small : (n : ℕ) → n < 2 ^ 31 → int32 n ≡ pos n
unfolding int32
int32-small n h =
    let low : n % 2 ^ 32 ≡ n = omega arith in
    let positive : ltb n (2 ^ 31) ≡ true = ground arith in rw (low, positive)

-- Under 2048 megabytes the limit is the one of the setting.
pub max_size_bytes-exact :
    (e : SqlExecutor)
    → e.max_result_mb < 2048
    → max_size_bytes e ≡ pos (e.max_result_mb * 1_048_576)
unfolding max_size_bytes
max_size_bytes-exact e small = int32-small (e.max_result_mb * 1_048_576) (omega arith)

-- The limit depends on the megabytes by 4096 only: from 4096 on it starts again at nothing.
max_size_bytes-wraps :
    (e : SqlExecutor)
    → e.max_result_mb % 4096 < 2048
    → max_size_bytes e ≡ pos (e.max_result_mb % 4096 * 1_048_576)
unfolding max_size_bytes int32
max_size_bytes-wraps e small =
    let low : e.max_result_mb * 1_048_576 % 2 ^ 32 ≡ e.max_result_mb % 4096 * 1_048_576 =
      omega arith in
    let positive : ltb (e.max_result_mb % 4096 * 1_048_576) (2 ^ 31) ≡ true = ground arith in
    rw (low, positive)

max_size_bytes-negative :
    (e : SqlExecutor)
    → 2048 ≤ e.max_result_mb % 4096
    → max_size_bytes e ≡ negsuc (2 ^ 32 - e.max_result_mb % 4096 * 1_048_576 - 1)
unfolding max_size_bytes int32
max_size_bytes-negative e large =
    let low : e.max_result_mb * 1_048_576 % 2 ^ 32 ≡ e.max_result_mb % 4096 * 1_048_576 =
      omega arith in
    let negative : ltb (e.max_result_mb % 4096 * 1_048_576) (2 ^ 31) ≡ false = ground arith in
    rw (low, negative)

-- With a limit of rows that is not 0: the limit of bytes is the one of the remainder of the megabytes by
-- 4096, when this is under 2048, and below zero otherwise; then no row is kept of a result whose first row
-- can be read, however short it is.
pub read_rows-wrapped :
    (D : Driver) (e : SqlExecutor) (row : Row D) (size : ℕ)
    (answers : List (Outcome Failure (Row D × ℕ)))
    → 0 < e.max_rows
    → (e.max_result_mb % 4096 < 2048 → max_size_bytes e ≡ pos (e.max_result_mb % 4096 * 1_048_576))
      × (2048 ≤ e.max_result_mb % 4096
          → (max_size_bytes e ≡ negsuc (2 ^ 32 - e.max_result_mb % 4096 * 1_048_576 - 1))
            × (read_rows D e 0 0 (ok (row, size) ∷ answers)
                ≡ record { rows = []; count = 0; stop = warned (size_truncated e.max_result_mb) }))
unfolding read_rows
read_rows-wrapped D e row size answers some_rows =
    let room : leb e.max_rows 0 ≡ false = ground arith in
    (
      max_size_bytes-wraps e,
      λ large. (max_size_bytes-negative e large, rw (room, max_size_bytes-negative e large)),
    )
