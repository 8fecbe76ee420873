-- ===== src/Prelude/Decimal.antt =====
-- `%d` of a number that is not negative: its decimal digits, which hold no other byte and give the
-- number back.
use Prim.Native.Nat.{ℕ, zero, suc, ◌+◌, ◌-◌, ◌*◌, ◌/◌, ◌%◌, ◌<◌}
use mathlib.Core.Path.{◌≡◌, refl, sym, ap, ◌∙◌}
use mathlib.Core.Bool.{Bool, true}
use mathlib.Core.List.{[], ◌∷◌, ◌++◌}
use mathlib.Core.Logic.{inl, inr}
use native.Mathlib.Omega.{arith}
use chat2sql.Prelude.Lists.{all, length, length-append}
use chat2sql.Prelude.Tests.{ltb, if◌then◌else◌, Bool-cases}
use chat2sql.Prelude.Text.{Bytes, between}

-- The fuel is the number of digits that may still come.
print_digits : ℕ → ℕ → Bytes
print_digits zero n = []
print_digits (suc fuel) n =
    let front = print_digits fuel (n / 10) in
    if ltb n 10 then (b'0' + n) ∷ [] else front ++ (b'0' + n % 10) ∷ []

-- A number has fewer digits than its value and one.
unfoldable pub decimal : ℕ → Bytes
unfolding print_digits
decimal n = print_digits (suc n) n

unfoldable pub value_from : ℕ → Bytes → ℕ
value_from acc [] = acc
value_from acc (c ∷ s) = value_from (acc * 10 + (c - b'0')) s

value_from-append :
    (acc : ℕ) (s t : Bytes) → value_from acc (s ++ t) ≡ value_from (value_from acc s) t
unfolding value_from
value_from-append acc [] t = refl
value_from-append acc (c ∷ s) t = value_from-append (acc * 10 + (c - b'0')) s t

value-print : (fuel n : ℕ) → n < fuel → value_from 0 (print_digits fuel n) ≡ n
unfolding print_digits value_from
value-print zero n h = absurd (omega arith)
value-print (suc fuel) n h = elim (Bool-cases (ltb n 10)) [
  | inl small ↦ rw small (omega arith)
  | inr large ↦ rw large (
      value_from-append 0 (print_digits fuel (n / 10)) ((b'0' + n % 10) ∷ [])
      ∙ ap (λ v. v * 10 + (b'0' + n % 10 - b'0')) (value-print fuel (n / 10) (ground arith))
      ∙ omega arith)
]

pub value_from-decimal : (n : ℕ) → value_from 0 (decimal n) ≡ n
unfolding decimal
value_from-decimal n = value-print (suc n) n (omega arith)

pub decimal-injective : (m n : ℕ) → decimal m ≡ decimal n → m ≡ n
decimal-injective m n h = sym (value_from-decimal m) ∙ (ap (value_from 0) h ∙ value_from-decimal n)

abbrev is_digit : ℕ → Bool
is_digit = between b'0' b'9'

all-snoc :
    (s : Bytes) (c : ℕ)
    → all is_digit s ≡ true
    → is_digit c ≡ true
    → all is_digit (s ++ c ∷ []) ≡ true
all-snoc [] c h k = ground arith
all-snoc (d ∷ s) c h k = ground (arith, all-snoc s c)

print-digits : (fuel n : ℕ) → all is_digit (print_digits fuel n) ≡ true
unfolding print_digits
print-digits zero n = refl
print-digits (suc fuel) n = elim (Bool-cases (ltb n 10)) [
  | inl small ↦ rw small (ground arith)
  | inr large ↦ rw large (
      all-snoc (print_digits fuel (n / 10)) (b'0' + n % 10) (print-digits fuel (n / 10))
        (ground arith))
]

pub decimal_digits : (n : ℕ) → all (between b'0' b'9') (decimal n) ≡ true
unfolding decimal
decimal_digits n = print-digits (suc n) n

print-length : (fuel n : ℕ) → 0 < length (print_digits (suc fuel) n)
unfolding print_digits
print-length fuel n = elim (Bool-cases (ltb n 10)) [
  | inl small ↦ rw small (omega arith)
  | inr large ↦
      rw large (omega (arith, length-append (print_digits fuel (n / 10)) ((b'0' + n % 10) ∷ [])))
]

pub length-decimal : (n : ℕ) → 0 < length (decimal n)
unfolding decimal
length-decimal n = print-length n n
