-- ===== src/SqlExecutor/Info.antt =====
-- internal/service/sql_executor.go: `detectQueryType`, `isReadOnlyQuery`, `extractTables` and `GetQueryInfo`.
use chat2sql.Prelude.{
  ℕ, ◌+◌, Bool, Option, none, some, List, [], ◌∷◌, Bytes, codes, if◌then◌else◌, leb, ◌==◌, any,
  drop, length, has_prefix, index, trim, Unicode, to_upper, trim_space, fields,
}

unfoldable pub detect_sql_type : Unicode → Bytes → Bytes
unfolding has_prefix to_upper trim_space
detect_sql_type u sql =
    let upper_sql = to_upper u (trim_space u sql) in
    if has_prefix (codes "SELECT") upper_sql
    then codes "SELECT"
    else if has_prefix (codes "WITH") upper_sql
    then codes "WITH"
    else if has_prefix (codes "EXPLAIN") upper_sql
    then codes "EXPLAIN"
    else if has_prefix (codes "SHOW") upper_sql
    then codes "SHOW"
    else codes "UNKNOWN"

abbrev pub read_only_prefixes : List Bytes
read_only_prefixes = codes "SELECT" ∷ codes "WITH" ∷ codes "EXPLAIN" ∷ codes "SHOW" ∷ []

unfoldable pub is_read_only_query : Unicode → Bytes → Bool
unfolding has_prefix to_upper trim_space
is_read_only_query u sql =
    any (λ p. has_prefix p (to_upper u (trim_space u sql))) read_only_prefixes

-- The bytes of " \t\n\r(),;"
abbrev pub in_cutset : ℕ → Bool
in_cutset c = any (λ b. c == b) (32 ∷ 9 ∷ 10 ∷ 13 ∷ b'(' ∷ b')' ∷ b',' ∷ b';' ∷ [])

-- What follows the last dot, or the whole text.
unfoldable pub after_last_dot : Bytes → Bytes
after_last_dot [] = []
after_last_dot (c ∷ s) =
    let rest = after_last_dot s in
    if any (λ b. b == b'.') (c ∷ s) then if any (λ b. b == b'.') s then rest else s else c ∷ s

unfoldable pub first_table : List Bytes → List Bytes
unfolding trim after_last_dot
first_table [] = []
first_table (word ∷ words) = after_last_dot (trim in_cutset word) ∷ []

-- The position is one of the upper-case text and cuts the text itself; `none` is the panic of a cut
-- behind its end.
unfoldable pub extract_from_tables : Unicode → Bytes → Option (List Bytes)
unfolding index to_upper trim_space fields first_table
extract_from_tables u sql = elim (index (codes " FROM ") (to_upper u sql)) [
  | none ↦ some []
  | some i ↦
      if leb (i + 6) (length sql)
      then some (first_table (fields u (trim_space u (drop (i + 6) sql))))
      else none
]

pub record QueryInfo : Type 0 where
  pub query_type : Bytes
  pub is_read_only : Bool
  pub tables : List Bytes

unfoldable pub get_query_info : Unicode → Bytes → Option QueryInfo
unfolding detect_sql_type is_read_only_query extract_from_tables
get_query_info u sql = elim (extract_from_tables u sql) [
  | none ↦ none
  | some tables ↦ some (record {
    query_type = detect_sql_type u sql;
    is_read_only = is_read_only_query u sql;
    tables = tables;
  })
]
