-- ===== src/SqlExecutor/ReadOnly.antt =====
-- internal/service/sql_executor.go: `isReadOnlyQuery` and `detectQueryType` agree.
use chat2sql.Prelude.{
  ◌≡◌, ◌≢◌, ◌↔◌, Bool, true, false, Bytes, codes, has_prefix, Unicode, to_upper, trim_space, arith,
  ◌||◌, if◌then◌else◌,
}
use chat2sql.SqlExecutor.Info.{detect_sql_type, is_read_only_query}

-- A text counts as read-only exactly when its type is known.
is_read_only_query_iff :
    (u : Unicode) (sql : Bytes)
    → (is_read_only_query u sql ≡ true) ↔ (detect_sql_type u sql ≢ codes "UNKNOWN")
unfolding is_read_only_query detect_sql_type
is_read_only_query_iff u sql =
    let upper_sql = to_upper u (trim_space u sql) in
    agree (has_prefix (codes "SELECT") upper_sql) (has_prefix (codes "WITH") upper_sql)
      (has_prefix (codes "EXPLAIN") upper_sql) (has_prefix (codes "SHOW") upper_sql)
  where
    agree :
        (a b c d : Bool)
        → ((a || (b || (c || (d || false)))) ≡ true) ↔ (
            (if a
              then codes "SELECT"
              else if b
              then codes "WITH"
              else if c
              then codes "EXPLAIN"
              else if d
              then codes "SHOW"
              else codes "UNKNOWN")
            ≢ codes "UNKNOWN")
    agree true b c d = ground arith
    agree false true c d = ground arith
    agree false false true d = ground arith
    agree false false false true = ground arith
    agree false false false false = ground arith
