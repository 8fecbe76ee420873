-- ===== src/Regexp.antt =====
-- What the code uses of the package `regexp`: patterns that are sequences of byte classes, greedy
-- and lazy repetitions of a class, word boundaries and letters under `(?i)`. A match is the
-- leftmost one that a backtracking search finds first, as the package documents.
pub mod Language
pub mod Complete
pub mod Search
use chat2sql.Prelude.{
  ℕ, zero, suc, ◌-◌, Bool, true, false, not, ◌&&◌, ◌||◌, Option, none, some, List, [], ◌∷◌, ◌++◌,
  map, Bytes, String, codes, between, ◌==◌, if◌then◌else◌, length, take, or_else, has_prefix, drop,
}

-- `text` takes one of some texts; `edge` is `\b`.
pub data Item : Type 0 where
  one star lazy : (ℕ → Bool) → Item
  text : List Bytes → Item
  edge : Item

abbrev pub Pattern : Type 0
Pattern = List Item

-- `[0-9A-Za-z_]`
abbrev pub is_word : ℕ → Bool
is_word c = between b'0' b'9' c || (between b'A' b'Z' c || (between b'a' b'z' c || c == b'_'))

abbrev pub word_before : Option ℕ → Bool
word_before none = false
word_before (some c) = is_word c

abbrev pub word_after : Bytes → Bool
word_after [] = false
word_after (c ∷ s) = is_word c

-- Between the byte before and the text that follows a word begins or ends.
abbrev pub at_edge : Option ℕ → Bytes → Bool
at_edge p s = if word_before p then not (word_after s) else word_after s

-- The byte before what is left, once `s` is taken.
abbrev pub last_of : Option ℕ → Bytes → Option ℕ
last_of p [] = p
last_of p (c ∷ s) = last_of (some c) s

-- How to go on from a place in the text: the text left after the match, if there is one.
abbrev pub Rest : Type 0
Rest = Option ℕ → Bytes → Option Bytes

greedy : (ℕ → Bool) → Rest → Rest
greedy f k p [] = k p []
greedy f k p (c ∷ s) = elim (f c) [
  | true ↦ or_else (greedy f k (some c) s) (k p (c ∷ s))
  | false ↦ k p (c ∷ s)
]

reluctant : (ℕ → Bool) → Rest → Rest
reluctant f k p [] = k p []
reluctant f k p (c ∷ s) = elim (f c) [
  | true ↦ or_else (k p (c ∷ s)) (reluctant f k (some c) s)
  | false ↦ k p (c ∷ s)
]

one_of : List Bytes → Rest → Rest
one_of [] k p s = none
one_of (w ∷ ws) k p s =
    let here : Option Bytes = k (last_of p w) (drop (length w) s) in
    let other : Option Bytes = one_of ws k p s in
    elim (has_prefix w s) [ true ↦ or_else here other | false ↦ other ]

match_one : (ℕ → Bool) → Rest → Rest
match_one f k p [] = none
match_one f k p (c ∷ s) = elim (f c) [ true ↦ k (some c) s | false ↦ none ]

-- The text that is left after the pattern's preferred match at this place.
unfoldable pub match : Pattern → Rest
unfolding greedy reluctant one_of match_one has_prefix
match [] p s = some s
match (one f ∷ is) p s = match_one f (match is) p s
match (star f ∷ is) p s = greedy f (match is) p s
match (lazy f ∷ is) p s = reluctant f (match is) p s
match (text ws ∷ is) p s = one_of ws (match is) p s
match (edge ∷ is) p s = let rest = match is p s in elim (at_edge p s) [ true ↦ rest | false ↦ none ]

-- `MatchString`
unfoldable pub match_string : Pattern → Option ℕ → Bytes → Bool
unfolding match
match_string is p [] = elim (match is p []) [ some _ ↦ true | none ↦ false ]
match_string is p (c ∷ s) = elim (match is p (c ∷ s)) [
  | some _ ↦ true
  | none ↦ match_string is (some c) s
]

-- `FindAllString(s, -1)`; `skip` bytes still belong to the last match.
unfoldable pub find_all : Pattern → Option ℕ → ℕ → Bytes → List Bytes
unfolding match
find_all is p (suc skip) [] = []
find_all is p (suc skip) (c ∷ s) = find_all is (some c) skip s
find_all is p zero [] = elim (match is p []) [ some _ ↦ [] ∷ [] | none ↦ [] ]
find_all is p zero (c ∷ s) = elim (match is p (c ∷ s)) [
  | some r ↦ take (length (c ∷ s) - length r) (c ∷ s) ∷ find_all is (some c) (length s - length r) s
  | none ↦ find_all is (some c) zero s
]

-- `ReplaceAllString(s, w)`, for a pattern that matches no empty text
unfoldable pub replace_all : Pattern → Bytes → Option ℕ → ℕ → Bytes → Bytes
unfolding match
replace_all is w p skip [] = []
replace_all is w p (suc skip) (c ∷ s) = replace_all is w (some c) skip s
replace_all is w p zero (c ∷ s) = elim (match is p (c ∷ s)) [
  | some r ↦ w ++ replace_all is w (some c) (length s - length r) s
  | none ↦ c ∷ replace_all is w (some c) zero s
]

-- A letter under `(?i)`. Beside `s` and `k` in either case stand the long s and the Kelvin sign.
fold_letter : ℕ → Item
fold_letter c =
    if between b'a' b'z' c then text ((c ∷ []) ∷ ((c - 32) ∷ []) ∷ beyond) else one (λ b. b == c)
  where
    beyond : List Bytes
    beyond =
        if c == b's'
        then (0xC5 ∷ 0xBF ∷ []) ∷ []
        else if c == b'k'
        then (0xE2 ∷ 0x84 ∷ 0xAA ∷ []) ∷ []
        else []

-- A text that stands for itself, and one under `(?i)`, in small letters.
unfoldable pub literal : Bytes → Pattern
literal = map (λ c. one (λ b. b == c))

unfoldable pub fold : String → Pattern
unfolding fold_letter
fold w = map fold_letter (codes w)

unfoldable pub plus : (ℕ → Bool) → Pattern
plus f = one f ∷ star f ∷ []
