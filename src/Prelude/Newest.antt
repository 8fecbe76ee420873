-- ===== src/Prelude/Newest.antt =====
-- The last elements of a list, as a window that is cut after each addition.
use Prim.Native.Nat.{ℕ, zero, suc, ◌+◌, ◌-◌, ◌≤◌}
use mathlib.Core.Path.{◌≡◌, refl, sym, ap, ◌∙◌}
use mathlib.Core.Bool.{false}
use mathlib.Core.List.{List, [], ◌∷◌, ◌++◌}
use mathlib.Core.Logic.{inl, inr}
use native.Mathlib.Omega.{arith}
use chat2sql.Prelude.Lists.{length, drop, length-append, length-drop}
use chat2sql.Prelude.Tests.{ltb, if◌then◌else◌, Bool-cases}

-- The last `n` of a list.
unfoldable pub newest {ℓ} : {A : Type ℓ} → ℕ → List A → List A
newest n xs = if ltb n (length xs) then drop (length xs - n) xs else xs

next : (n m : ℕ) → suc n + m ≡ suc (n + m)
next n m = omega arith

module _ {A : Type 0} where
  drop-append : (n : ℕ) (xs ys : List A) → n ≤ length xs → drop n (xs ++ ys) ≡ drop n xs ++ ys
  drop-append zero xs ys h = refl
  drop-append (suc n) [] ys h = absurd (omega arith)
  drop-append (suc n) (x ∷ xs) ys h = drop-append n xs ys (omega arith)

  drop-drop : (m n : ℕ) (xs : List A) → drop m (drop n xs) ≡ drop (n + m) xs
  drop-drop m zero xs = ap (λ k. drop k xs) (omega arith)
  drop-drop zero (suc n) [] = rw (next n 0) refl
  drop-drop (suc m) (suc n) [] = rw (next n (suc m)) refl
  drop-drop m (suc n) (x ∷ xs) = rw (next n m) (drop-drop m n xs)

  pub newest-drop : (n : ℕ) (xs : List A) → newest n xs ≡ drop (length xs - n) xs
  unfolding newest
  newest-drop n xs = elim (Bool-cases (ltb n (length xs))) [
    | inl long ↦ rw long refl
    | inr short ↦ rw short (ap (λ k. drop k xs) (none_over short))
  ]
    where
      none_over : ltb n (length xs) ≡ false → 0 ≡ length xs - n
      none_over short = ground arith

  -- Cutting before another is added changes nothing that is kept.
  pub newest-newest :
      (n : ℕ) (xs : List A) (x : A) → newest n (newest n xs ++ x ∷ []) ≡ newest n (xs ++ x ∷ [])
  newest-newest n xs x =
      let k = length xs - n in
      let ys = xs ++ x ∷ [] in
      ap (newest n)
        (ap (λ zs. zs ++ x ∷ []) (newest-drop n xs) ∙ sym (drop-append k xs (x ∷ []) (omega arith)))
      ∙ newest-drop n (drop k ys)
      ∙ drop-drop (length (drop k ys) - n) k ys
      ∙ ap (λ m. drop m ys) (omega (arith, length-drop k ys, length-append xs (x ∷ [])))
      ∙ sym (newest-drop n ys)

  pub append_nil : (xs : List A) → xs ++ [] ≡ xs
  append_nil [] = refl
  append_nil (x ∷ xs) = ap (λ ws. x ∷ ws) (append_nil xs)

  pub append_assoc : (xs : List A) (y : A) (zs : List A) → (xs ++ y ∷ []) ++ zs ≡ xs ++ (y ∷ zs)
  append_assoc [] y zs = refl
  append_assoc (x ∷ xs) y zs = ap (λ ws. x ∷ ws) (append_assoc xs y zs)
