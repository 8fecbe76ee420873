-- ===== src/SqlSecurity/Quotes.antt =====
-- internal/service/sql_security.go, `checkStatementCount`: every text can be taken apart into bare and
-- quoted stretches.
use chat2sql.Prelude.{
  lacks, ℕ, ◌≡◌, refl, true, false, Option, none, some, [], ◌∷◌, ◌++◌, Bytes, arith, ◌==◌,
  Bool-cases, ap, ◌∙◌, ◌⊎◌, inl, inr, ==_iff, sym,
}
use mathlib.Core.List.{append_assoc}
use chat2sql.SqlSecurity.Statements.{is_quote, bare, quoted, render, Split}

-- The text that follows an open quote `q`, up to the quote that closes it.
record Closed (q : ℕ) (s : Bytes) : Type 0 where
  body : Bytes
  after : Bytes
  body_lacks : lacks q body ≡ true
  split : Split after
  whole : s ≡ body ++ q ∷ after

abbrev SplitFrom : Option ℕ → Bytes → Type 0
SplitFrom none s = Split s
SplitFrom (some q) s = (lacks q s ≡ true) ⊎ Closed q s

split_quoted : (q : ℕ) (s : Bytes) → is_quote q ≡ true → SplitFrom (some q) s → Split (q ∷ s)
split_quoted q s hq (inl h) = record {
  pieces = [];
  rest = q ∷ s;
  are_pieces = tt;
  is_tail = (hq, h);
  whole = refl;
}
split_quoted q s hq (inr c) = record {
  pieces = quoted q c.body ∷ c.split.pieces;
  rest = c.split.rest;
  are_pieces = ((hq, c.body_lacks), c.split.are_pieces);
  is_tail = c.split.is_tail;
  whole = ap (◌∷◌ q) (
      c.whole
      ∙ (ap (λ t. c.body ++ q ∷ t) c.split.whole
          ∙ (sym (append_assoc c.body (q ∷ []) (render c.split.pieces ++ c.split.rest))
              ∙ sym (append_assoc (c.body ++ q ∷ []) (render c.split.pieces) c.split.rest))));
}

split_bare : (c : ℕ) (s : Bytes) → is_quote c ≡ false → Split s → Split (c ∷ s)
split_bare c s h r = record {
  pieces = bare (c ∷ []) ∷ r.pieces;
  rest = r.rest;
  are_pieces = (ground arith, r.are_pieces);
  is_tail = r.is_tail;
  whole = ap (◌∷◌ c) r.whole;
}

split_inside :
    (q c : ℕ) (s : Bytes) → (c == q) ≡ false → SplitFrom (some q) s → SplitFrom (some q) (c ∷ s)
split_inside q c s h (inl l) = inl (ground arith)
split_inside q c s h (inr k) = inr (record {
  body = c ∷ k.body;
  after = k.after;
  body_lacks = ground (arith, k.body_lacks);
  split = k.split;
  whole = ap (◌∷◌ c) k.whole;
})

split_from : (mode : Option ℕ) (s : Bytes) → SplitFrom mode s
split_from none [] = record { pieces = []; rest = []; are_pieces = tt; is_tail = tt; whole = refl }
split_from (some q) [] = inl refl
split_from none (c ∷ s) = elim (Bool-cases (is_quote c)) [
  | inl h ↦ split_quoted c s h (split_from (some c) s)
  | inr h ↦ split_bare c s h (split_from none s)
]
split_from (some q) (c ∷ s) = elim (Bool-cases (c == q)) [
  | inl h ↦ inr (record {
    body = [];
    after = s;
    body_lacks = refl;
    split = split_from none s;
    whole = ap (λ (b : ℕ). b ∷ s) ((==_iff c q).0 h);
  })
  | inr h ↦ split_inside q c s h (split_from (some q) s)
]

-- Every text can be taken apart so.
pub split_text : (s : Bytes) → Split s
split_text s = split_from none s
