-- ===== src/MetadataCache/Keys.antt =====
-- internal/service/metadata_cache.go: the cache keys "%d:%s:%s" and "%d:%s", which connection they
-- belong to, and when two of them are one.
use mathlib.Core.List.{append_assoc}
use chat2sql.Prelude.{
  ℕ, ◌≡◌, refl, ap, sym, ◌∙◌, Bool, true, false, not, none, [], ◌∷◌, ◌++◌, Bytes, arith, all, lacks,
  between, decimal, decimal-injective, decimal_digits, has_prefix, same_bytes, same_bytes_iff, ◌==◌,
  ==_iff, if◌then◌else◌, Dict, lookup, keep, lookup-keep_key, number_key, text_key, Bool-cases, inl,
  inr,
}
use chat2sql.MetadataCache.State.{MetadataCache, connection_prefix, table_key, pattern_key}
use chat2sql.MetadataCache.Upkeep.{invalidate_connection}

digits-lacks : (s : Bytes) → all (between b'0' b'9') s ≡ true → lacks b':' s ≡ true
digits-lacks [] h = refl
digits-lacks (c ∷ s) h = ground (arith, digits-lacks s)

decimal-lacks : (n : ℕ) → lacks b':' (decimal n) ≡ true
decimal-lacks n = digits-lacks (decimal n) (decimal_digits n)

-- The first separator of two equal texts stands at one place.
split_at :
    (c : ℕ) (s s' t t' : Bytes)
    → lacks c s ≡ true
    → lacks c s' ≡ true
    → s ++ c ∷ t ≡ s' ++ c ∷ t'
    → (s ≡ s') × (t ≡ t')
split_at c [] [] t t' h k e = (refl, ground arith)
split_at c [] (d ∷ s') t t' h k e = absurd (ground arith)
split_at c (d ∷ s) [] t t' h k e = absurd (ground arith)
split_at c (d ∷ s) (d' ∷ s') t t' h k e =
    let (front, back) = split_at c s s' t t' (ground arith) (ground arith) (ground arith) in
    (ground arith, back)

has_prefix-sep :
    (c : ℕ) (s s' t : Bytes)
    → lacks c s ≡ true
    → lacks c s' ≡ true
    → has_prefix (s ++ c ∷ []) (s' ++ c ∷ t) ≡ same_bytes s s'
unfolding has_prefix same_bytes
has_prefix-sep c [] [] t h k = ground arith
has_prefix-sep c [] (d ∷ s') t h k = ground arith
has_prefix-sep c (d ∷ s) [] t h k = ground arith
has_prefix-sep c (d ∷ s) (d' ∷ s') t h k = ground (arith, has_prefix-sep c s s' t)

same_decimal : (i j : ℕ) → same_bytes (decimal i) (decimal j) ≡ (i == j)
same_decimal i j = elim (Bool-cases (i == j)) [
  | inl e ↦ rw e ((same_bytes_iff _ _).1 (ap decimal ((==_iff i j).0 e)))
  | inr e ↦ rw e (ground (arith, (same_bytes_iff (decimal i) (decimal j)).0, decimal-injective i j))
]

-- A key begins with the prefix of its own connection only.
prefix-connection :
    (i j : ℕ) (rest : Bytes)
    → has_prefix (connection_prefix i) (connection_prefix j ++ rest) ≡ (i == j)
unfolding connection_prefix
prefix-connection i j rest = rw (append_assoc (decimal j) (b':' ∷ []) rest) (
    has_prefix-sep b':' (decimal i) (decimal j) rest (decimal-lacks i) (decimal-lacks j)
    ∙ same_decimal i j)

-- The keys of different tables differ, as long as the names of the schemas hold no colon.
pub table_key-injective :
    (i j : ℕ) (s s' t t' : Bytes)
    → lacks b':' s ≡ true
    → lacks b':' s' ≡ true
    → table_key i s t ≡ table_key j s' t'
    → (i ≡ j) × (s ≡ s') × (t ≡ t')
unfolding table_key connection_prefix
table_key-injective i j s s' t t' h h' e =
    let (number, rest) =
      split_at b':' (decimal i) (decimal j) (s ++ b':' ∷ t) (s' ++ b':' ∷ t') (decimal-lacks i)
        (decimal-lacks j)
        (sym (append_assoc (decimal i) (b':' ∷ []) (s ++ b':' ∷ t))
          ∙ (e ∙ append_assoc (decimal j) (b':' ∷ []) (s' ++ b':' ∷ t'))) in
    let (schema, table) = split_at b':' s s' t t' h h' rest in
    (decimal-injective i j number, schema, table)

-- With a colon in a name, two tables share one key.
pub table_key_collision :
    (i : ℕ) (a b c : Bytes) → table_key i (a ++ b':' ∷ b) c ≡ table_key i a (b ++ b':' ∷ c)
unfolding table_key
table_key_collision i a b c =
    ap (λ s. connection_prefix i ++ s) (append_assoc a (b':' ∷ b) (b':' ∷ c))

prefix-table_key :
    (i j : ℕ) (s t : Bytes) → has_prefix (connection_prefix i) (table_key j s t) ≡ (i == j)
unfolding table_key
prefix-table_key i j s t = prefix-connection i j (s ++ b':' ∷ t)

prefix-pattern_key :
    (i j : ℕ) (s : Bytes) → has_prefix (connection_prefix i) (pattern_key j s) ≡ (i == j)
unfolding pattern_key
prefix-pattern_key i j s = prefix-connection i j s

if-not {ℓ} : {A : Type ℓ} (b : Bool) (x y : A) → (if not b then x else y) ≡ (if b then y else x)
if-not true x y = refl
if-not false x y = refl

lookup-without_prefix :
    {V : Type 0} (id j : ℕ) (key : Bytes) (m : Dict Bytes V)
    → has_prefix (connection_prefix id) key ≡ (id == j)
    → lookup key (keep (λ k _. not (has_prefix (connection_prefix id) k)) m)
      ≡ (if id == j then none else lookup key m)
lookup-without_prefix id j key m h =
    lookup-keep_key (λ k. not (has_prefix (connection_prefix id) k)) key m
    ∙ (ap (λ b. if not b then lookup key m else none) h ∙ if-not (id == j) (lookup key m) none)

-- `InvalidateConnection` removes what belongs to the connection from all three caches, and nothing
-- else: connection 1 does not take connection 11 along.
pub lookup-invalidate_connection :
    (id j : ℕ) (s t pattern : Bytes) (mc : MetadataCache)
    → let mc' = invalidate_connection id mc in
      (lookup j mc'.connection_schemas ≡ (if id == j then none else lookup j mc.connection_schemas))
      × (lookup (table_key j s t) mc'.table_summaries
          ≡ (if id == j then none else lookup (table_key j s t) mc.table_summaries))
      × (lookup (pattern_key j pattern) mc'.query_patterns
          ≡ (if id == j then none else lookup (pattern_key j pattern) mc.query_patterns))
unfolding invalidate_connection
lookup-invalidate_connection id j s t pattern mc = (
  lookup-keep_key (λ k. not (id == k)) j mc.connection_schemas
      ∙ if-not (id == j) (lookup j mc.connection_schemas) none,
  lookup-without_prefix id j (table_key j s t) mc.table_summaries (prefix-table_key id j s t),
  lookup-without_prefix id j (pattern_key j pattern) mc.query_patterns
      (prefix-pattern_key id j pattern),
)
