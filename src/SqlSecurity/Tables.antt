-- ===== src/SqlSecurity/Tables.antt =====
-- internal/service/sql_security.go, `extractTables`. `none` is the run-time panic of a slice out of
-- range: the index is found in the upper-case text and used in the text itself.
use chat2sql.Prelude.{
  ℕ, ◌+◌, ◌≡◌, refl, ap, ◌≤◌, inl, inr, Bool, true, ◌||◌, Option, none, some, List, [], ◌∷◌, ◌++◌,
  Bytes, codes, arith, leb, ◌==◌, if◌then◌else◌, any, length, drop, or_else, index, has_prefix,
  trim, fields, trim_space, equal_fold, is_ascii, to_upper, upper_byte, Unicode, map, Option-cases,
  Bool-cases,
}

infixl 5 ◌>>=◌
abbrev pub ◌>>=◌ {ℓ κ} : {A : Type ℓ} {B : Type κ} → Option A → (A → Option B) → Option B
none >>= f = none
some a >>= f = f a

-- `s[from:]`
unfoldable pub slice_from : ℕ → Bytes → Option Bytes
slice_from from s = if leb from (length s) then some (drop from s) else none

-- The characters of `strings.Trim(words[0], " \t\n\r(),;")`
abbrev in_cutset : ℕ → Bool
in_cutset c =
    c == 32
    || (c == 9 || (c == 10 || (c == 13 || (c == b'(' || (c == b')' || (c == b',' || c == b';'))))))

-- What follows the last dot, if there is a dot.
unfoldable pub after_last_dot : Bytes → Option Bytes
after_last_dot [] = none
after_last_dot (c ∷ s) = or_else (after_last_dot s) (if c == b'.' then some s else none)

unfoldable pub table_name : Bytes → Bytes
unfolding trim after_last_dot
table_name w =
    let name = trim in_cutset w in elim (after_last_dot name) [ none ↦ name | some s ↦ s ]

module _ (u : Unicode) where
  unfoldable pub add_table : List Bytes → Bytes → List Bytes
  unfolding equal_fold
  add_table tables [] = tables
  add_table tables (c ∷ name) =
      if any (λ t. equal_fold u t (c ∷ name)) tables then tables else tables ++ (c ∷ name) ∷ []

  unfoldable pub first_table : List Bytes → List Bytes → List Bytes
  unfolding add_table table_name
  first_table tables [] = tables
  first_table tables (w ∷ ws) = add_table tables (table_name w)

  -- One round of the loop over the keywords.
  unfoldable pub table_after : Bytes → List Bytes → Bytes → Option (List Bytes)
  unfolding index slice_from first_table fields trim_space to_upper
  table_after keyword tables s = elim (index keyword (to_upper u s)) [
    | none ↦ some tables
    | some i ↦ elim (slice_from (i + length keyword) s) [
      | none ↦ none
      | some after ↦ some (first_table tables (fields u (trim_space u after)))
    ]
  ]

  unfoldable pub extract_tables : Bytes → Option (List Bytes)
  unfolding table_after
  extract_tables s = do
    from ← table_after (codes "FROM") [] s
    joined ← table_after (codes "JOIN") from s
    updated ← table_after (codes "UPDATE") joined s
    table_after (codes "INTO") updated s

length-has_prefix : (k s : Bytes) → has_prefix k s ≡ true → length k ≤ length s
unfolding has_prefix
length-has_prefix [] s h = omega arith
length-has_prefix (a ∷ k) [] h = absurd (ground arith)
length-has_prefix (a ∷ k) (b ∷ s) h = ground (arith, length-has_prefix k s)

-- An occurrence that is found ends within the text.
index-le : (k s : Bytes) (i : ℕ) → index k s ≡ some i → i + length k ≤ length s
unfolding index
index-le k [] i h = elim (Bool-cases (has_prefix k [])) [
  | inl e ↦ ground (arith, length-has_prefix k [] e)
  | inr e ↦ absurd (ground arith)
]
index-le k (b ∷ s) i h = elim (Bool-cases (has_prefix k (b ∷ s))) [
  | inl e ↦ ground (arith, length-has_prefix k (b ∷ s) e)
  | inr e ↦ elim (Option-cases (index k s)) [
    | inl missing ↦ absurd (ground arith)
    | inr (j, found) ↦ ground (arith, index-le k s j found)
  ]
]

length-map_upper : (s : Bytes) → length (map upper_byte s) ≡ length s
length-map_upper [] = refl
length-map_upper (c ∷ s) = omega (arith, length-map_upper s)

to_upper-ascii : (u : Unicode) (s : Bytes) → is_ascii s ≡ true → to_upper u s ≡ map upper_byte s
unfolding to_upper
to_upper-ascii u s h = rw h

slice-in_range : (n : ℕ) (s : Bytes) → n ≤ length s → slice_from n s ≡ some (drop n s)
unfolding slice_from
slice-in_range n s h = ground arith

table_after-ascii :
    (u : Unicode) (keyword : Bytes) (tables : List Bytes) (s : Bytes)
    → is_ascii s ≡ true
    → (found : List Bytes) × (table_after u keyword tables s ≡ some found)
unfolding table_after
table_after-ascii u keyword tables s h = elim (Option-cases (index keyword (to_upper u s))) [
  | inl e ↦ (tables, rw (e, table_after))
  | inr (i, e) ↦ (
    first_table u tables (fields u (trim_space u (drop (i + length keyword) s))),
    rw (e, table_after, slice-in_range (i + length keyword) s (in_range i e)),
  )
]
  where
    in_range : (i : ℕ) → index keyword (to_upper u s) ≡ some i → i + length keyword ≤ length s
    in_range i e = omega (
      arith,
      index-le keyword (to_upper u s) i e,
      ap length (to_upper-ascii u s h),
      length-map_upper s,
    )

-- On ASCII texts the slices are in range, and `extractTables` returns.
pub extract_tables-ascii :
    (u : Unicode) (s : Bytes)
    → is_ascii s ≡ true
    → (tables : List Bytes) × (extract_tables u s ≡ some tables)
unfolding extract_tables
extract_tables-ascii u s h =
    let (from, e) = table_after-ascii u (codes "FROM") [] s h in
    let (joined, f) = table_after-ascii u (codes "JOIN") from s h in
    let (updated, g) = table_after-ascii u (codes "UPDATE") joined s h in
    let (found, k) = table_after-ascii u (codes "INTO") updated s h in (found, rw (e, f, g, k))
