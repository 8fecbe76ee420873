-- ===== src/Prelude/Text.antt =====
-- Go strings as lists of bytes, with what the code uses of the package `strings` on them. On a
-- text that is not all ASCII the case tables and the character classes of `unicode` come in: they
-- are the fields of `Unicode`.
use Prim.Native.Nat.{ℕ, zero, suc, ◌+◌, ◌-◌, ◌/◌, ◌%◌}
use Prim.Native.Char.{code}
use Prim.Native.String.{String}
use mathlib.Core.Path.{◌≡◌, refl, sym, ap, ◌∙◌}
use mathlib.Core.Bool.{Bool, true, false, not, ◌&&◌, ◌||◌}
use mathlib.Core.List.{List, [], ◌∷◌, ◌++◌, map, reverse}
use mathlib.Core.Logic.{◌↔◌}
use mathlib.Core.Option.{Option, none, some}
use native.Mathlib.Omega.{arith}
use chat2sql.Prelude.Tests.{leb, ltb, ◌==◌, if◌then◌else◌}
use chat2sql.Prelude.Lists.{all, length, drop}

abbrev pub Bytes : Type 0
Bytes = List ℕ

-- The bytes of a literal that is all ASCII.
abbrev pub codes : String → Bytes
codes String.[] = []
codes (String.◌∷◌ c s) = code c ∷ codes s

-- The bytes of a rune.
abbrev pub rune_bytes : ℕ → Bytes
rune_bytes r =
    if ltb r 128
    then r ∷ []
    else if ltb r 2048
    then (192 + r / 64) ∷ (128 + r % 64) ∷ []
    else if ltb r 65536
    then (224 + r / 4096) ∷ (128 + r / 64 % 64) ∷ (128 + r % 64) ∷ []
    else (240 + r / 262144) ∷ (128 + r / 4096 % 64) ∷ (128 + r / 64 % 64) ∷ (128 + r % 64) ∷ []

-- The bytes of any literal.
unfoldable pub utf8 : String → Bytes
utf8 String.[] = []
utf8 (String.◌∷◌ c s) = rune_bytes (code c) ++ utf8 s

abbrev pub between : ℕ → ℕ → ℕ → Bool
between lo hi c = leb lo c && leb c hi

abbrev pub is_ascii : Bytes → Bool
is_ascii = all (λ c. ltb c 128)

-- `unicode.IsSpace` on ASCII: tab to carriage return, and the blank.
abbrev pub is_space : ℕ → Bool
is_space c = between 9 13 c || c == 32

abbrev pub upper_byte : ℕ → ℕ
upper_byte c = if between b'a' b'z' c then c - 32 else c

abbrev pub lower_byte : ℕ → ℕ
lower_byte c = if between b'A' b'Z' c then c + 32 else c

-- No byte of the text is `q`.
abbrev pub lacks : ℕ → Bytes → Bool
lacks q = all (λ c. not (c == q))

unfoldable pub same_bytes : Bytes → Bytes → Bool
same_bytes [] [] = true
same_bytes (a ∷ s) (b ∷ t) = a == b && same_bytes s t
same_bytes _ _ = false

-- `strings.HasPrefix t s`: whether `s` begins the text.
unfoldable pub has_prefix : Bytes → Bytes → Bool
has_prefix [] t = true
has_prefix (a ∷ s) [] = false
has_prefix (a ∷ s) (b ∷ t) = a == b && has_prefix s t

-- `strings.Index t s`
unfoldable pub index : Bytes → Bytes → Option ℕ
unfolding has_prefix
index s [] = if has_prefix s [] then some 0 else none
index s (b ∷ t) =
    let later : Option ℕ = elim (index s t) [ none ↦ none | some i ↦ some (suc i) ] in
    if has_prefix s (b ∷ t) then some 0 else later

-- `strings.Contains t s`
unfoldable pub contains : Bytes → Bytes → Bool
unfolding has_prefix
contains s [] = has_prefix s []
contains s (b ∷ t) = has_prefix s (b ∷ t) || contains s t

-- `strings.Count t s` for a text `s` of one or more bytes: occurrences that do not overlap.
-- `skip` bytes still belong to the last one.
unfoldable pub count_from : Bytes → ℕ → Bytes → ℕ
unfolding has_prefix
count_from s skip [] = 0
count_from s (suc skip) (b ∷ t) = count_from s skip t
count_from s zero (b ∷ t) = elim (has_prefix s (b ∷ t)) [
  | true ↦ suc (count_from s (length s - 1) t)
  | false ↦ count_from s 0 t
]

abbrev pub count : Bytes → Bytes → ℕ
count s t = count_from s 0 t

unfoldable pub trim_left : (ℕ → Bool) → Bytes → Bytes
trim_left f [] = []
trim_left f (c ∷ s) = elim (f c) [ true ↦ trim_left f s | false ↦ c ∷ s ]

-- `strings.TrimFunc`, byte by byte
unfoldable pub trim : (ℕ → Bool) → Bytes → Bytes
unfolding trim_left
trim f s = reverse (trim_left f (reverse (trim_left f s)))

cons_word : Bytes → List Bytes → List Bytes
cons_word [] ws = ws
cons_word (c ∷ w) ws = reverse (c ∷ w) ∷ ws

-- `strings.Fields` on ASCII; the word read so far is kept reversed.
unfoldable pub words : Bytes → Bytes → List Bytes
unfolding cons_word
words w [] = cons_word w []
words w (c ∷ s) = elim (is_space c) [ true ↦ cons_word w (words [] s) | false ↦ words (c ∷ w) s ]

-- What the package `strings` and the tables of `unicode` do on texts that are not all ASCII.
pub record Unicode : Type 0 where
  pub upper : Bytes → Bytes
  pub lower : Bytes → Bytes
  pub trim_spaces : Bytes → Bytes
  pub split_fields : Bytes → List Bytes
  pub folds_equal : Bytes → Bytes → Bool
  -- some rune is neither printable nor white space
  pub unprintable : Bytes → Bool

module _ (u : Unicode) where
  -- `strings.ToUpper`
  unfoldable pub to_upper : Bytes → Bytes
  to_upper s = if is_ascii s then map upper_byte s else u.upper s

  -- `strings.ToLower`
  unfoldable pub to_lower : Bytes → Bytes
  to_lower s = if is_ascii s then map lower_byte s else u.lower s

  -- `strings.TrimSpace`
  unfoldable pub trim_space : Bytes → Bytes
  unfolding trim
  trim_space s = if is_ascii s then trim is_space s else u.trim_spaces s

  -- `strings.Fields`
  unfoldable pub fields : Bytes → List Bytes
  unfolding words
  fields s = if is_ascii s then words [] s else u.split_fields s

  -- `strings.EqualFold`
  unfoldable pub equal_fold : Bytes → Bytes → Bool
  unfolding same_bytes
  equal_fold s t =
      if is_ascii s && is_ascii t
      then same_bytes (map lower_byte s) (map lower_byte t)
      else u.folds_equal s t

  -- `!unicode.IsPrint(char) && !unicode.IsSpace(char)` for some rune of the text
  unfoldable pub has_unprintable : Bytes → Bool
  has_unprintable s =
      if is_ascii s then not (all (λ c. between 32 126 c || is_space c) s) else u.unprintable s

pub same_bytes_iff : (s t : Bytes) → (same_bytes s t ≡ true) ↔ (s ≡ t)
unfolding same_bytes
same_bytes_iff [] [] = ground arith
same_bytes_iff [] (b ∷ t) = ground arith
same_bytes_iff (a ∷ s) [] = ground arith
same_bytes_iff (a ∷ s) (b ∷ t) = ground (arith, same_bytes_iff s t)

-- A text with a prefix is the prefix and what follows it.
pub has_prefix-append : (s t : Bytes) → has_prefix s t ≡ true → t ≡ s ++ drop (length s) t
unfolding has_prefix
has_prefix-append [] t h = refl
has_prefix-append (a ∷ s) [] h = grind arith
has_prefix-append (a ∷ s) (b ∷ t) h =
    let here : a ≡ b = ground arith in
    ap (λ c. c ∷ t) (sym here) ∙ ap (λ u. a ∷ u) (has_prefix-append s t (ground arith))
