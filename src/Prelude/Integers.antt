-- ===== src/Prelude/Integers.antt =====
-- `strconv.ParseInt s 10 64` and `fmt.Sscanf s "%d"` into an `int64`.
use Prim.Native.Nat.{ℕ, zero, suc, ◌^◌, ◌<◌}
use mathlib.Core.Path.{◌≡◌, refl, ◌∙◌}
use mathlib.Core.Bool.{Bool, true, false, not, ◌||◌}
use mathlib.Core.List.{[], ◌∷◌}
use mathlib.Core.Option.{Option, none, some}
use native.Mathlib.Omega.{arith}
use chat2sql.Prelude.Decimal.{
  decimal, value_from, value_from-decimal, decimal_digits, length-decimal,
}
use chat2sql.Prelude.Lists.{all, length, is_empty}
use chat2sql.Prelude.Outcomes.{ℤ, pos, negsuc}
use chat2sql.Prelude.Tests.{ltb, ◌==◌, if◌then◌else◌}
use chat2sql.Prelude.Text.{Bytes, between}

-- A number without a sign: one digit or more, and nothing else.
unfoldable pub parse_digits : Bytes → Option ℕ
parse_digits s =
    if is_empty s || not (all (between b'0' b'9') s) then none else some (value_from 0 s)

-- The number of that size and sign, where it fits into 64 bits.
abbrev pub int64 : Bool → ℕ → Option ℤ
int64 true n = if ltb n (2 ^ 63) then some (pos n) else none
int64 false zero = some (pos 0)
int64 false (suc n) = if ltb n (2 ^ 63) then some (negsuc n) else none

abbrev sized : Bool → Option ℕ → Option ℤ
sized b none = none
sized b (some n) = int64 b n

unfoldable pub parse_int : Bytes → Option ℤ
unfolding parse_digits
parse_int [] = none
parse_int (c ∷ s) =
    if c == b'-'
    then sized false (parse_digits s)
    else if c == b'+'
    then sized true (parse_digits s)
    else sized true (parse_digits (c ∷ s))

pub parse_digits-decimal : (n : ℕ) → parse_digits (decimal n) ≡ some n
unfolding parse_digits
parse_digits-decimal n =
    rw (nonempty (decimal n) (length-decimal n), decimal_digits n, value_from-decimal n)
  where
    nonempty : (s : Bytes) → 0 < length s → is_empty s ≡ false
    nonempty [] h = absurd (omega arith)
    nonempty (c ∷ s) h = refl

parse_int-digits :
    (s : Bytes)
    → all (between b'0' b'9') s ≡ true
    → 0 < length s
    → parse_int s ≡ sized true (parse_digits s)
unfolding parse_int
parse_int-digits [] digits h = absurd (omega arith)
parse_int-digits (c ∷ s) digits h =
    let minus : (c == b'-') ≡ false = ground arith in
    let plus : (c == b'+') ≡ false = ground arith in rw (minus, plus)

-- A number that fits is read from its decimal digits.
pub parse_int-decimal : (n : ℕ) → n < 2 ^ 63 → parse_int (decimal n) ≡ some (pos n)
parse_int-decimal n fits =
    let small : ltb n (2 ^ 63) ≡ true = ground arith in
    parse_int-digits (decimal n) (decimal_digits n) (length-decimal n)
    ∙ rw (parse_digits-decimal n, small)
