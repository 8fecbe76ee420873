-- ===== src/ContextManager/Patterns.antt =====
-- internal/ai/context_manager.go: `analyzeQueryPattern` and what it calls.
use chat2sql.Prelude.{
  ℕ, ◌+◌, ◌-◌, ◌*◌, Bool, false, not, ◌&&◌, ◌||◌, List, [], ◌∷◌, ◌++◌, Bytes, codes, String,
  same_bytes, if◌then◌else◌, ltb, ◌==◌, any, drop, length, contains, between, trim, Unicode,
  to_lower, fields, Dict, text_key, insert, is_empty, utf8,
}
use chat2sql.ContextManager.State.{UserContext}

unfoldable pub contains_string : List Bytes → Bytes → Bool
unfolding same_bytes
contains_string slice str = any (λ s. same_bytes s str) slice

-- A text is added behind the others unless it is there, and the first goes when there are too many.
unfoldable pub remember : ℕ → Bytes → List Bytes → List Bytes
unfolding contains_string
remember limit str slice =
    let longer = slice ++ str ∷ [] in
    if contains_string slice str
    then slice
    else if ltb limit (length longer)
    then drop 1 longer
    else longer

abbrev pub opens_table : Bytes → Bool
opens_table word =
    same_bytes word (codes "from")
    || (same_bytes word (codes "join")
        || (same_bytes word (codes "update") || same_bytes word (codes "into")))

abbrev pub in_brackets : ℕ → Bool
in_brackets c = any (λ b. c == b) (b'(' ∷ b')' ∷ b',' ∷ b';' ∷ [])

-- The word is a name, and not a call.
unfoldable pub name_in : Bytes → List Bytes
unfolding trim contains
name_in word =
    let name = trim in_brackets word in
    if not (is_empty name) && not (contains (codes "(") name) then name ∷ [] else []

unfoldable pub names_after : List Bytes → List Bytes
unfolding same_bytes name_in
names_after [] = []
names_after (word ∷ []) = []
names_after (word ∷ next ∷ words) =
    let rest = names_after (next ∷ words) in if opens_table word then name_in next ++ rest else rest

unfoldable pub extract_table_names_from_sql : Unicode → Bytes → List Bytes
unfolding to_lower fields names_after
extract_table_names_from_sql u sql = names_after (fields u (to_lower u sql))

abbrev mentions : Bytes → String → Bool
mentions text s = contains (utf8 s) text

unfoldable pub identify_query_pattern : Unicode → Bytes → Bytes → Bytes
unfolding to_lower contains utf8
identify_query_pattern u query sql =
    let query = to_lower u query in
    let sql = to_lower u sql in
    if mentions query "统计" || (mentions query "总数" || (mentions sql "count" || mentions sql "sum"))
    then codes "aggregation_queries"
    else if mentions query "时间"
        || (mentions query "日期" || (mentions query "趋势" || mentions sql "date"))
    then codes "time_analysis"
    else if mentions sql "join" || mentions query "关联"
    then codes "join_queries"
    else if mentions sql "order by"
        || (mentions query "排序" || (mentions query "最高" || mentions query "最低"))
    then codes "ranking_queries"
    else if mentions sql "group by" || mentions query "分组"
    then codes "grouping_queries"
    else codes "basic_select"

-- A rune from 4e00 to 9fff, in its three bytes.
unfoldable pub contains_chinese : Bytes → Bool
contains_chinese (a ∷ b ∷ c ∷ s) =
    let rune = (a - 224) * 4096 + (b - 128) * 64 + (c - 128) in
    let rest = contains_chinese (b ∷ c ∷ s) in
    (between 224 239 a && (between 128 191 b && (between 128 191 c && between 19968 40959 rune)))
    || rest
contains_chinese _ = false

abbrev set_if : Bool → Bytes → Dict Bytes Bytes → Dict Bytes Bytes
set_if b key settings = if b then insert key (codes "true") settings else settings

unfoldable pub update_custom_settings : Bytes → Bytes → Dict Bytes Bytes → Dict Bytes Bytes
unfolding contains contains_chinese insert utf8
update_custom_settings query sql settings =
    let s1 =
      set_if (mentions query "limit" || mentions query "前") (codes "prefers_limit") settings in
    let s2 = set_if (mentions sql "order by") (codes "uses_ordering") s1 in
    insert (codes "preferred_lang")
      (if contains_chinese query then codes "zh-CN" else codes "en-US") s2

unfoldable pub remember_tables : List Bytes → List Bytes → List Bytes
unfolding remember
remember_tables [] tables = tables
remember_tables (t ∷ names) tables = remember_tables names (remember 10 t tables)

unfoldable pub analyze_query_pattern : Unicode → Bytes → Bytes → UserContext → UserContext
unfolding remember_tables remember extract_table_names_from_sql identify_query_pattern
    update_custom_settings
analyze_query_pattern u query sql ctx = if is_empty query || is_empty sql then ctx else record ctx {
  frequent_tables = remember_tables (extract_table_names_from_sql u sql) ctx.frequent_tables;
  query_patterns = remember 5 (identify_query_pattern u query sql) ctx.query_patterns;
  custom_settings = update_custom_settings query sql ctx.custom_settings;
}
