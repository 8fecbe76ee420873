-- ===== src/Prelude/Maps.antt =====
-- Go maps as association lists with distinct keys, and the comparison of keys as an interface.
use Prim.Native.Nat.{ℕ, ◌≤◌}
use mathlib.Core.Path.{◌≡◌, refl, sym, ap, ◌∙◌}
use mathlib.Core.Bool.{Bool, true, not}
use mathlib.Core.List.{List, [], ◌∷◌}
use mathlib.Core.Logic.{◌↔◌, ◌≢◌, inl, inr}
use mathlib.Core.Option.{Option, none, some}
use native.Mathlib.Omega.{arith}
use chat2sql.Prelude.Lists.{length}
use chat2sql.Prelude.Tests.{if◌then◌else◌, Bool-cases, ◌==◌, ==_iff}
use chat2sql.Prelude.Text.{Bytes, same_bytes, same_bytes_iff}

pub record Key {ℓ} (K : Type ℓ) : Type ℓ where
  pub same : K → K → Bool
  pub same_iff : (a b : K) → (same a b ≡ true) ↔ (a ≡ b)

instance abbrev pub number_key : Key ℕ
number_key = record { same = ◌==◌; same_iff = ==_iff }

instance abbrev pub text_key : Key Bytes
text_key = record { same = same_bytes; same_iff = same_bytes_iff }

abbrev pub Dict {ℓ} : Type ℓ → Type ℓ → Type ℓ
Dict K V = List (K × V)

module _ {ℓ} {K V : Type ℓ} where
  -- `Range` with `Delete` on what does not pass the test.
  unfoldable pub keep : (K → V → Bool) → Dict K V → Dict K V
  keep f [] = []
  keep f ((k, v) ∷ m) = let rest = keep f m in if f k v then (k, v) ∷ rest else rest

  abbrev pub filter_value : (K → V → Bool) → K → Option V → Option V
  filter_value f k none = none
  filter_value f k (some v) = if f k v then some v else none

  pub length-keep-le : (f : K → V → Bool) (m : Dict K V) → length (keep f m) ≤ length m
  unfolding keep
  length-keep-le f [] = omega arith
  length-keep-le f ((k, v) ∷ m) = ground (arith, length-keep-le f m)

module _ {ℓ} {K V : Type ℓ} ⦃e : Key K⦄ where
  unfoldable pub lookup : K → Dict K V → Option V
  lookup k [] = none
  lookup k ((j, v) ∷ m) = if e.same k j then some v else lookup k m

  unfoldable pub insert : K → V → Dict K V → Dict K V
  insert k v [] = (k, v) ∷ []
  insert k v ((j, w) ∷ m) = if e.same k j then (k, v) ∷ m else (j, w) ∷ insert k v m

  abbrev pub delete : K → Dict K V → Dict K V
  delete k = keep (λ j _. not (e.same k j))

  -- No key stands twice.
  abbrev pub Distinct : Dict K V → Type ℓ
  Distinct [] = Unit
  Distinct ((k, v) ∷ m) = (lookup k m ≡ none) × Distinct m

  pub lookup-insert :
      (k j : K) (v : V) (m : Dict K V)
      → lookup j (insert k v m) ≡ (if e.same j k then some v else lookup j m)
  unfolding lookup insert
  lookup-insert k j v [] = refl
  lookup-insert k j v ((i, w) ∷ m) =
      ground (
        arith,
        e.same_iff k j,
        e.same_iff k i,
        e.same_iff j i,
        e.same_iff j k,
        lookup-insert k j v m,
      )

  pub lookup-insert_self : (k : K) (v : V) (m : Dict K V) → lookup k (insert k v m) ≡ some v
  lookup-insert_self k v m = ground (arith, lookup-insert k k v m, (e.same_iff k k).1 refl)

  -- Of two values for a key the later one counts.
  pub insert-insert : (k : K) (v w : V) (m : Dict K V) → insert k w (insert k v m) ≡ insert k w m
  unfolding insert
  insert-insert k v w [] = rw ((e.same_iff k k).1 refl) refl
  insert-insert k v w ((j, x) ∷ m) = elim (Bool-cases (e.same k j)) [
    | inl here ↦ rw (here, (e.same_iff k k).1 refl) refl
    | inr further ↦ rw (further, further) (ap (λ n. (j, x) ∷ n) (insert-insert k v w m))
  ]

  pub lookup-insert_ne :
      (k j : K) (v : V) (m : Dict K V) → j ≢ k → lookup j (insert k v m) ≡ lookup j m
  lookup-insert_ne k j v m h = ground (arith, lookup-insert k j v m, (e.same_iff j k).0)

  -- Keeping by the key alone needs no distinct keys.
  pub lookup-keep_key :
      (f : K → Bool) (k : K) (m : Dict K V)
      → lookup k (keep (λ j _. f j) m) ≡ (if f k then lookup k m else none)
  unfolding lookup keep
  lookup-keep_key f k [] = ground arith
  lookup-keep_key f k ((j, v) ∷ m) = elim (Bool-cases (e.same k j)) [
    | inl hit ↦ ground (arith, lookup-keep_key f k m, hit, ap f ((e.same_iff k j).0 hit))
    | inr miss ↦ ground (arith, lookup-keep_key f k m, miss)
  ]

  keep-absent :
      (f : K → V → Bool) (k : K) (m : Dict K V) → lookup k m ≡ none → lookup k (keep f m) ≡ none
  unfolding lookup keep
  keep-absent f k [] h = refl
  keep-absent f k ((j, v) ∷ m) h = ground (arith, keep-absent f k m)

  pub lookup-keep :
      (f : K → V → Bool) (k : K) (m : Dict K V)
      → Distinct m
      → lookup k (keep f m) ≡ filter_value f k (lookup k m)
  unfolding lookup keep
  lookup-keep f k [] d = refl
  lookup-keep f k ((j, v) ∷ m) d = elim (Bool-cases (e.same k j)) [
    | inl hit ↦ ground (arith, hit, (e.same_iff k j).0 hit, keep-absent f j m d.0)
    | inr miss ↦ ground (arith, lookup-keep f k m d.1, miss)
  ]

  pub keep-Distinct : (f : K → V → Bool) (m : Dict K V) → Distinct m → Distinct (keep f m)
  unfolding keep
  keep-Distinct f [] d = tt
  keep-Distinct f ((k, v) ∷ m) d = elim (Bool-cases (f k v)) [
    | inl h ↦ rw h (keep-absent f k m d.0, keep-Distinct f m d.1)
    | inr h ↦ rw h (keep-Distinct f m d.1)
  ]

  pub insert-Distinct : (k : K) (v : V) (m : Dict K V) → Distinct m → Distinct (insert k v m)
  unfolding insert lookup
  insert-Distinct k v [] d = (refl, tt)
  insert-Distinct k v ((j, w) ∷ m) d = elim (Bool-cases (e.same k j)) [
    | inl hit ↦ rw hit (ground (arith, d.0, (e.same_iff k j).0 hit), d.1)
    | inr miss ↦ rw miss (
      lookup-insert_ne k j v m (λ h. ground (arith, (e.same_iff k j).1 (sym h))) ∙ d.0,
      insert-Distinct k v m d.1,
    )
  ]
