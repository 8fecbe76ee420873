-- ===== src/SqlSecurity/Statements.antt =====
-- internal/service/sql_security.go, `checkStatementCount`: semicolons outside quoted text.
use chat2sql.Prelude.{
  lacks, ℕ, ◌+◌, ◌≡◌, refl, Bool, true, not, ◌||◌, Option, none, some, List, [], ◌∷◌, ◌++◌, Bytes,
  arith, ltb, ◌==◌, if◌then◌else◌, All, all, ap, ◌∙◌,
}
use chat2sql.SqlSecurity.Config.{Validator, ValidationError, too_many_statements}

abbrev pub is_quote : ℕ → Bool
is_quote c = c == b'\'' || c == b'"'

-- The loop's state: the quote that is open, if one is, and `statementCount`.
pub record Scan : Type 0 where
  pub quote : Option ℕ
  pub statements : ℕ

scan_bare : Scan → ℕ → Scan
scan_bare st c =
    if is_quote c
    then record st { quote = some c }
    else if c == b';'
    then record st { statements = st.statements + 1 }
    else st

scan_quoted : Scan → ℕ → ℕ → Scan
scan_quoted st q c = if c == q then record st { quote = none } else st

scan_step : Scan → ℕ → Scan
unfolding scan_bare scan_quoted
scan_step st c = elim st.quote [ none ↦ scan_bare st c | some q ↦ scan_quoted st q c ]

scan : Scan → Bytes → Scan
scan st [] = st
scan st (c ∷ s) = scan (scan_step st c) s

unfoldable pub count_statements : Bytes → ℕ
unfolding scan scan_step
count_statements s = (scan (record { quote = none; statements = 1 }) s).statements

unfoldable pub check_statement_count : Validator → Bytes → List ValidationError
unfolding count_statements
check_statement_count v s =
    if ltb v.max_statements (count_statements s)
    then too_many_statements v.max_statements ∷ []
    else []

-- A text taken apart: bare stretches, and stretches between two quotes of one kind.
pub data Piece : Type 0 where
  bare : Bytes → Piece
  quoted : ℕ → Bytes → Piece

abbrev pub IsPiece : Piece → Type 0
IsPiece (bare s) = all (λ c. not (is_quote c)) s ≡ true
IsPiece (quoted q s) = (is_quote q ≡ true) × (lacks q s ≡ true)

abbrev pub render_piece : Piece → Bytes
render_piece (bare s) = s
render_piece (quoted q s) = q ∷ (s ++ q ∷ [])

abbrev pub render : List Piece → Bytes
render [] = []
render (p ∷ ps) = render_piece p ++ render ps

abbrev pub semicolons : Bytes → ℕ
semicolons [] = 0
semicolons (c ∷ s) = (if c == b';' then 1 else 0) + semicolons s

abbrev pub separators : List Piece → ℕ
separators [] = 0
separators (bare s ∷ ps) = semicolons s + separators ps
separators (quoted q s ∷ ps) = separators ps

scan-append : (st : Scan) (s t : Bytes) → scan st (s ++ t) ≡ scan (scan st s) t
unfolding scan
scan-append st [] t = refl
scan-append st (c ∷ s) t = scan-append (scan_step st c) s t

scan_bare_text :
    (n : ℕ) (s : Bytes)
    → all (λ c. not (is_quote c)) s ≡ true
    → scan (record { quote = none; statements = n }) s
      ≡ record { quote = none; statements = n + semicolons s }
unfolding scan scan_step
scan_bare_text n [] h = ground arith
scan_bare_text n (c ∷ s) h = ground (arith, scan_bare_text n s, scan_bare_text (n + 1) s)

scan_quoted_text :
    (n q : ℕ) (s : Bytes)
    → lacks q s ≡ true
    → scan (record { quote = some q; statements = n }) s ≡ record { quote = some q; statements = n }
unfolding scan scan_step
scan_quoted_text n q [] h = refl
scan_quoted_text n q (c ∷ s) h = ground (arith, scan_quoted_text n q s)

scan_open :
    (n q : ℕ)
    → is_quote q ≡ true
    → scan_step (record { quote = none; statements = n }) q
      ≡ record { quote = some q; statements = n }
unfolding scan_step
scan_open n q h = ground arith

scan_close :
    (n q : ℕ)
    → scan_step (record { quote = some q; statements = n }) q
      ≡ record { quote = none; statements = n }
unfolding scan_step
scan_close n q = ground arith

scan_piece :
    (n : ℕ) (p : Piece)
    → IsPiece p
    → scan (record { quote = none; statements = n }) (render_piece p)
      ≡ record { quote = none; statements = n + separators (p ∷ []) }
unfolding scan
scan_piece n (bare s) h = scan_bare_text n s h ∙ ground arith
scan_piece n (quoted q s) (hq, h) =
    ap (λ st. scan st (s ++ q ∷ [])) (scan_open n q hq)
    ∙ (scan-append _ s (q ∷ [])
        ∙ (ap (λ st. scan st (q ∷ [])) (scan_quoted_text n q s h)
            ∙ (scan_close n q ∙ ground arith)))

separators-cons :
    (p : Piece) (ps : List Piece) → separators (p ∷ ps) ≡ separators (p ∷ []) + separators ps
separators-cons (bare s) ps = omega arith
separators-cons (quoted q s) ps = omega arith

scan-render :
    (n : ℕ) (ps : List Piece)
    → All IsPiece ps
    → scan (record { quote = none; statements = n }) (render ps)
      ≡ record { quote = none; statements = n + separators ps }
unfolding scan
scan-render n [] h = ground arith
scan-render n (p ∷ ps) (hp, h) =
    rw
      (
        scan-append _ (render_piece p) (render ps),
        scan_piece n p hp,
        scan-render (n + separators (p ∷ [])) ps h,
      )
      (ground (arith, separators-cons p ps))

-- What may follow the pieces: nothing, or a quote that is never closed and the text after it.
abbrev pub IsTail : Bytes → Type 0
IsTail [] = Unit
IsTail (q ∷ s) = (is_quote q ≡ true) × (lacks q s ≡ true)

scan-tail :
    (n : ℕ) (tail : Bytes)
    → IsTail tail
    → (scan (record { quote = none; statements = n }) tail).statements ≡ n
unfolding scan
scan-tail n [] h = refl
scan-tail n (q ∷ s) (hq, h) =
    ap (λ (st : Scan). st.statements)
      (ap (λ st. scan st s) (scan_open n q hq) ∙ scan_quoted_text n q s h)

count_statements-render :
    (ps : List Piece) (tail : Bytes)
    → All IsPiece ps
    → IsTail tail
    → count_statements (render ps ++ tail) ≡ 1 + separators ps
unfolding count_statements
count_statements-render ps tail h ht =
    ap (λ (st : Scan). st.statements)
      (scan-append _ (render ps) tail ∙ ap (λ st. scan st tail) (scan-render 1 ps h))
    ∙ scan-tail _ tail ht

pub record Split (s : Bytes) : Type 0 where
  pub pieces : List Piece
  pub rest : Bytes
  pub are_pieces : All IsPiece pieces
  pub is_tail : IsTail rest
  pub whole : s ≡ render pieces ++ rest

-- However a text is taken apart into bare stretches, closed quotations and perhaps a last quotation
-- that is never closed, the count is one more than the semicolons of the bare stretches.
pub count_statements-Split :
    (s : Bytes) (sp : Split s) → count_statements s ≡ 1 + separators sp.pieces
count_statements-Split s sp =
    ap count_statements sp.whole
    ∙ count_statements-render sp.pieces sp.rest sp.are_pieces sp.is_tail
