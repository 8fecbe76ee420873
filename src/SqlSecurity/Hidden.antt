-- ===== src/SqlSecurity/Hidden.antt =====
-- internal/service/sql_security.go: what `cleanSQL` takes out of a text before the keywords are
-- looked for. Two of the three comment patterns are injection patterns too; the block comment is one
-- only where it stays on a line.
use chat2sql.Prelude.{
  ℕ, ◌≡◌, Bool, true, Option, none, some, List, [], ◌∷◌, Bytes, arith, all, Unicode,
}
use chat2sql.Regexp.{Pattern, lazy, literal}
use chat2sql.Regexp.Language.{Matches, byte, stop, on}
use chat2sql.Regexp.Search.{Occurs, here, later}
use chat2sql.SqlSecurity.Clean.{strip_comments, strip_comments_absent}
use chat2sql.SqlSecurity.Config.{SqlSecurityConfig, new_validator}
use chat2sql.SqlSecurity.Patterns.{block_comment, not_newline, comment_patterns, injection_patterns}
use chat2sql.SqlSecurity.QueryType.{QueryTypes}
use chat2sql.SqlSecurity.Verdict.{IsAccepted}

abbrev anything : ℕ → Bool
anything c = true

-- Without a line feed the lazy run of any bytes is a lazy run of bytes within a line.
lazy_in_line :
    {is : Pattern} {p : Option ℕ} {s r : Bytes}
    → all not_newline s ≡ true
    → Matches (lazy anything ∷ is) p s r
    → Matches (lazy not_newline ∷ is) p s r
lazy_in_line h (stop m) = stop m
lazy_in_line {s = c ∷ s} h (on e m) = on (ground arith) (lazy_in_line (ground arith) m)

block_in_line :
    (p : Option ℕ) (s r : Bytes)
    → all not_newline s ≡ true
    → Matches (block_comment anything) p s r
    → Matches (block_comment not_newline) p s r
unfolding block_comment literal
block_in_line p [] r h m = elim m [ ]
block_in_line p (c ∷ []) r h (byte e m) = elim m [ ]
block_in_line p (c ∷ d ∷ s) r h (byte e (byte f m)) =
    byte e (byte f (lazy_in_line (ground arith) m))

Occurs-in_line :
    (p : Option ℕ) (s : Bytes)
    → all not_newline s ≡ true
    → Occurs (block_comment anything) p s
    → Occurs (block_comment not_newline) p s
Occurs-in_line p s h (here {r = r} m) = here (block_in_line p s r h m)
Occurs-in_line p (c ∷ s) h (later o) = later (Occurs-in_line (some c) s (ground arith) o)

-- From a text of one line that a configured validator accepts, no comment is taken out: the
-- keywords are looked for in all of it.
pub strip_comments_accepted :
    (u : Unicode) (keys : List Bytes → List Bytes) (c : SqlSecurityConfig) (order : QueryTypes)
    (s : Bytes)
    → IsAccepted u order (new_validator u keys c) s
    → all not_newline s ≡ true
    → strip_comments (new_validator u keys c).comment_patterns s ≡ s
unfolding new_validator comment_patterns injection_patterns
strip_comments_accepted u keys c order s a h = strip_comments_absent comment_patterns s (
  a.no_injection.1.1.0,
  (a.no_injection.1.1.1.1.0, ((λ o. a.no_injection.1.1.1.0 (Occurs-in_line none s h o)), tt)),
)
