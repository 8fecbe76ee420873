-- ===== src/SqlSecurity/QueryType.antt =====
-- internal/service/sql_security.go: `detectQueryType`, `isReadOnlyQuery`, `isAllowedStatement`. The
-- table of prefixes is a Go map, whose iteration order is not fixed.
use mathlib.Core.List.{Perm, Permᴰ}
use mathlib.Core.Logic.{∥∥₁_elim}
use chat2sql.Prelude.{
  ◌≡◌, refl, inl, inr, Bool, true, ◌||◌, List, [], ◌∷◌, Bytes, codes, arith, any, all, has_prefix,
  same_bytes, same_bytes_iff, if◌then◌else◌, Unicode, to_upper, trim_space, equal_fold, not,
  Bool-cases, sym, ◌∙◌, subst, All,
}

abbrev pub QueryTypes : Type 0
QueryTypes = List (Bytes × Bytes)

abbrev pub query_types : QueryTypes
query_types =
    (codes "SELECT", codes "SELECT")
    ∷ (codes "WITH", codes "WITH")
    ∷ (codes "EXPLAIN", codes "EXPLAIN")
    ∷ (codes "DESCRIBE", codes "DESCRIBE")
    ∷ (codes "DESC", codes "DESCRIBE")
    ∷ (codes "SHOW", codes "SHOW")
    ∷ (codes "INSERT", codes "INSERT")
    ∷ (codes "UPDATE", codes "UPDATE")
    ∷ (codes "DELETE", codes "DELETE")
    ∷ (codes "CREATE", codes "CREATE")
    ∷ (codes "DROP", codes "DROP")
    ∷ (codes "ALTER", codes "ALTER")
    ∷ []

-- The loop over the table, in the order of this iteration.
unfoldable pub first_type : QueryTypes → Bytes → Bytes
unfolding has_prefix
first_type [] s = codes "UNKNOWN"
first_type ((prefix, query_type) ∷ table) s =
    if has_prefix prefix s then query_type else first_type table s

unfoldable pub detect_query_type : Unicode → QueryTypes → Bytes → Bytes
unfolding first_type to_upper trim_space
detect_query_type u table s = first_type table (to_upper u (trim_space u s))

unfoldable pub is_read_only_query : Bytes → Bool
unfolding same_bytes
is_read_only_query t =
    any (same_bytes t)
      (codes "SELECT" ∷ codes "WITH" ∷ codes "EXPLAIN" ∷ codes "DESCRIBE" ∷ codes "SHOW" ∷ [])

unfoldable pub is_allowed_statement : Unicode → List Bytes → Bytes → Bool
unfolding equal_fold
is_allowed_statement u allowed t = any (λ a. equal_fold u a t) allowed

-- Two entries that can both fit one text name one type.
abbrev agree : Bytes × Bytes → Bytes × Bytes → Bool
agree a b = not (has_prefix a.0 b.0 || has_prefix b.0 a.0) || same_bytes a.1 b.1

has_prefix_both :
    (p q s : Bytes)
    → has_prefix p s ≡ true
    → has_prefix q s ≡ true
    → (has_prefix p q || has_prefix q p) ≡ true
unfolding has_prefix
has_prefix_both [] q s h k = refl
has_prefix_both (a ∷ p) [] s h k = ground arith
has_prefix_both (a ∷ p) (b ∷ q) [] h k = cc
has_prefix_both (a ∷ p) (b ∷ q) (c ∷ s) h k = ground (arith, has_prefix_both p q s)

agree→eq :
    (a b : Bytes × Bytes) (s : Bytes)
    → agree a b ≡ true
    → has_prefix a.0 s ≡ true
    → has_prefix b.0 s ≡ true
    → a.1 ≡ b.1
agree→eq a b s h ha hb = ground (arith, has_prefix_both a.0 b.0 s ha hb, (same_bytes_iff a.1 b.1).0)

module _ (s : Bytes) where
  abbrev fits : Bytes × Bytes → Bool
  fits e = has_prefix e.0 s

  first_type-fits :
      (e : Bytes × Bytes) (table : QueryTypes)
      → fits e ≡ true
      → all (agree e) table ≡ true
      → any fits table ≡ true
      → e.1 ≡ first_type table s
  unfolding first_type
  first_type-fits e [] h k any_fits = cc
  first_type-fits e (a ∷ table) h k any_fits = elim (Bool-cases (fits a)) [
    | inl fit ↦ rw (fit, first_type) (agree→eq e a s (ground arith) h fit)
    | inr unfit ↦ rw (unfit, first_type) (first_type-fits e table h (ground arith) (ground arith))
  ]

  -- Each entry that fits the text names the type that is found first.
  abbrev NamesType : Bytes → Bytes × Bytes → Type 0
  NamesType t e = fits e ≡ true → e.1 ≡ t

  all-NamesType :
      (table some_entries : QueryTypes)
      → all (λ e. all (agree e) table) some_entries ≡ true
      → (any fits some_entries ≡ true → any fits table ≡ true)
      → All (NamesType (first_type table s)) some_entries
  all-NamesType table [] h k = tt
  all-NamesType table (e ∷ es) h k = (
    λ fit. first_type-fits e table fit (ground arith) (k (ground arith)),
    all-NamesType table es (ground arith) (λ f. k (ground arith)),
  )

  All-Permᴰ : (P : Bytes × Bytes → Type 0) {l m : QueryTypes} → Permᴰ l m → All P l → All P m
  All-Permᴰ P Permᴰ.nil h = tt
  All-Permᴰ P (Permᴰ.cons e d) h = (subst P e h.0, All-Permᴰ P d h.1)
  All-Permᴰ P (Permᴰ.swap e f) h = (subst P f h.1.0, (subst P e h.0, h.1.1))
  All-Permᴰ P (Permᴰ.trans d e) h = All-Permᴰ P e (All-Permᴰ P d h)

  first_type-Permᴰ :
      {l m : QueryTypes} (t : Bytes)
      → Permᴰ l m
      → All (NamesType t) l
      → first_type l s ≡ first_type m s
  unfolding first_type
  first_type-Permᴰ t Permᴰ.nil h = refl
  first_type-Permᴰ t (Permᴰ.cons e d) h = ground (arith, first_type-Permᴰ t d h.1)
  first_type-Permᴰ t (Permᴰ.swap e f) h = ground arith
  first_type-Permᴰ t (Permᴰ.trans d e) h =
      first_type-Permᴰ t d h ∙ first_type-Permᴰ t e (All-Permᴰ (NamesType t) d h)

Bytes-set : IsSet Bytes
Bytes-set = hlevel

query_types-agree : all (λ e. all (agree e) query_types) query_types ≡ true
unfolding has_prefix same_bytes
query_types-agree = refl

-- In whatever order the map is iterated, the same type is detected.
pub detect_query_type-perm :
    (u : Unicode) (order : QueryTypes) (s : Bytes)
    → Perm query_types order
    → detect_query_type u order s ≡ detect_query_type u query_types s
unfolding detect_query_type
detect_query_type-perm u order s p =
    let text = to_upper u (trim_space u s) in
    sym (
      ∥∥₁_elim p (Bytes-set _ _) (λ d.
        first_type-Permᴰ text (first_type query_types text) d
          (all-NamesType text query_types query_types query_types-agree (λ h. h))))
