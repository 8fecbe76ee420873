-- ===== src/Prelude/Outcomes.antt =====
-- Results with an error, and signed integers as far as identifiers need them.
use Prim.Native.Nat.{ℕ, suc}
use mathlib.Core.Path.{◌≡◌, refl, ap, subst}
use mathlib.Core.Logic.{◌⊎◌, inl, inr}
use mathlib.Core.Bool.{Bool, false}
use mathlib.Core.List.{◌∷◌}
use chat2sql.Prelude.Decimal.{decimal}
use chat2sql.Prelude.Tests.{ltb}
use chat2sql.Prelude.Text.{Bytes}

pub data Outcome {ℓ κ} (E : Type ℓ) (A : Type κ) : Type (ℓ ⊔ κ) where
  ok : A → Outcome E A
  err : E → Outcome E A

abbrev ok_or {ℓ κ} : {E : Type ℓ} {A : Type κ} → A → Outcome E A → A
ok_or d (ok a) = a
ok_or d (err e) = d

-- What holds of a result holds of the result that the same `ok` is known to have.
pub ok_subst {ℓ κ μ} :
    {E : Type ℓ} {A : Type κ} (P : A → Type μ) {a b : A}
    → ◌≡◌ {A = Outcome E A} (ok a) (ok b)
    → P a
    → P b
ok_subst P {a} e h = subst P (ap (ok_or a) e) h

pub Outcome-cases {ℓ κ} :
    {E : Type ℓ} {A : Type κ} (o : Outcome E A) → ((a : A) × (o ≡ ok a)) ⊎ ((e : E) × (o ≡ err e))
Outcome-cases (ok a) = inl (a, refl)
Outcome-cases (err e) = inr (e, refl)

-- `negsuc n` is -(n + 1).
pub data ℤ : Type 0 where
  pos : ℕ → ℤ
  negsuc : ℕ → ℤ

abbrev pub is_positive : ℤ → Bool
is_positive (pos n) = ltb 0 n
is_positive (negsuc n) = false

-- "%d"
unfoldable pub decimal_int : ℤ → Bytes
unfolding decimal
decimal_int (pos n) = decimal n
decimal_int (negsuc n) = b'-' ∷ decimal (suc n)
