-- ===== src/SqlSecurity/Patterns.antt =====
-- internal/service/sql_security.go, `initializePatterns`: the expressions, in the order of the code.
use chat2sql.Prelude.{true, ℕ, Bool, not, ◌||◌, String, codes, between, List, [], ◌∷◌, ◌++◌, ◌==◌}
use chat2sql.Regexp.{Pattern, one, star, lazy, edge, is_word, literal, fold, plus}

-- `\s`, `.`, `[^\r\n]`, `[^q]`, `[0-9a-fA-F]` and `[=<>!]`
abbrev pub is_blank : ℕ → Bool
is_blank c = c == 9 || (c == 10 || (c == 12 || (c == 13 || c == 32)))

abbrev pub not_newline : ℕ → Bool
not_newline c = not (c == 10)

abbrev in_line : ℕ → Bool
in_line c = not (c == 13 || c == 10)

abbrev other_than : ℕ → ℕ → Bool
other_than q c = not (c == q)

abbrev is_hex : ℕ → Bool
is_hex c = between b'0' b'9' c || (between b'a' b'f' c || between b'A' b'F' c)

abbrev is_comparison : ℕ → Bool
is_comparison c = c == b'=' || (c == b'<' || (c == b'>' || c == b'!'))

abbrev spaces : Pattern
spaces = star is_blank ∷ []

abbrev lit : String → Pattern
lit w = literal (codes w)

-- `'[^']*'`, for either quote
abbrev quoted : ℕ → Pattern
quoted q = one (λ c. c == q) ∷ star (other_than q) ∷ one (λ c. c == q) ∷ []

-- `\s*\(` and `\b word \s*\(`
abbrev opens : Pattern
opens = spaces ++ lit "("

unfoldable pub call_of : String → Pattern
unfolding fold literal
call_of w = edge ∷ (fold w ++ opens)

-- `\b first \s+ second \b`
unfoldable pub phrase : String → String → Pattern
unfolding fold plus
phrase first second = edge ∷ (fold first ++ (plus is_blank ++ (fold second ++ edge ∷ [])))

-- `\b word \s+ a \s* = \s* b \b`
unfoldable pub tautology : String → String → String → Pattern
unfolding fold plus literal
tautology w a b =
    edge
    ∷ (fold w
        ++ (plus is_blank ++ (lit a ++ (spaces ++ (lit "=" ++ (spaces ++ (lit b ++ edge ∷ [])))))))

-- two quoted texts with a middle between them
unfoldable pub compared : ℕ → Pattern → Pattern
compared q middle = quoted q ++ (spaces ++ (middle ++ (spaces ++ quoted q)))

unfoldable pub line_comment : String → Pattern
unfolding literal
line_comment w = lit w ++ star in_line ∷ []

-- `/\*.*?\*/`, and the same over several lines
unfoldable pub block_comment : (ℕ → Bool) → Pattern
unfolding literal
block_comment f = lit "/*" ++ (lazy f ∷ lit "*/")

unfoldable pub injection_patterns : List Pattern
unfolding call_of phrase tautology compared line_comment block_comment fold literal plus
injection_patterns =
    phrase "union" "select"
    ∷ (edge
        ∷ (fold "union"
            ++ (plus is_blank ++ (fold "all" ++ (plus is_blank ++ (fold "select" ++ edge ∷ []))))))
    ∷ line_comment "--"
    ∷ block_comment not_newline
    ∷ line_comment "#"
    ∷ compared b'\'' (plus is_comparison)
    ∷ compared b'"' (plus is_comparison)
    ∷ compared b'\'' (lit "and")
    ∷ compared b'\'' (lit "or")
    ∷ (lit "0x" ++ plus is_hex)
    ∷ phrase "waitfor" "delay"
    ∷ call_of "sleep"
    ∷ call_of "pg_sleep"
    ∷ call_of "benchmark"
    ∷ tautology "and" "1" "1"
    ∷ tautology "or" "1" "1"
    ∷ tautology "and" "1" "2"
    ∷ (lit ";" ++ (spaces ++ plus is_word))
    ∷ call_of "char"
    ∷ call_of "ord"
    ∷ call_of "hex"
    ∷ (call_of "substring" ++ (star not_newline ∷ (fold "version" ++ (spaces ++ lit "()"))))
    ∷ (call_of "version" ++ lit ")")
    ∷ call_of "load_file"
    ∷ phrase "into" "outfile"
    ∷ phrase "into" "dumpfile"
    ∷ []

unfoldable pub comment_patterns : List Pattern
unfolding line_comment block_comment
comment_patterns = line_comment "--" ∷ line_comment "#" ∷ block_comment (λ c. true) ∷ []

-- `(?i)0x[0-9a-f]+`
unfoldable pub hex_pattern : Pattern
unfolding fold plus
hex_pattern = fold "0x" ++ plus is_hex
