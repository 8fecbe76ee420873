-- ===== src/SqlSecurity/Clean.antt =====
-- internal/service/sql_security.go, `cleanSQL`: comments out, white space made single blanks.
use chat2sql.Prelude.{◌≡◌, refl, none, List, [], ◌∷◌, Bytes, Unicode, trim_space, All}
use chat2sql.Regexp.{Pattern, replace_all, plus}
use chat2sql.Regexp.Search.{Occurs, replace_all_absent}
use chat2sql.SqlSecurity.Config.{Validator}
use chat2sql.SqlSecurity.Patterns.{is_blank}

abbrev blank : Bytes
blank = 32 ∷ []

unfoldable pub strip_comments : List Pattern → Bytes → Bytes
strip_comments [] s = s
strip_comments (p ∷ ps) s = strip_comments ps (replace_all p blank none 0 s)

unfoldable pub squeeze : Bytes → Bytes
unfolding plus
squeeze s = replace_all (plus is_blank) blank none 0 s

unfoldable pub clean_sql : Unicode → Validator → Bytes → Bytes
unfolding strip_comments squeeze
clean_sql u v s = squeeze (trim_space u (strip_comments v.comment_patterns s))

-- A text in which no comment occurs goes through unchanged.
pub strip_comments_absent :
    (ps : List Pattern) (s : Bytes) → All (λ is. ¬ Occurs is none s) ps → strip_comments ps s ≡ s
unfolding strip_comments
strip_comments_absent [] s h = refl
strip_comments_absent (p ∷ ps) s (hp, h) =
    rw (replace_all_absent p blank none s hp) (strip_comments_absent ps s h)
