-- ===== src/Base/Text/Decimal.antt =====
-- Numbers are read back from their decimal print.
use exa_postgres_interface.Base.Tests.{ltb, Bool-cases}
use exa_postgres_interface.Base.Int.{ℤ, pos, negsuc, IsI64}
use exa_postgres_interface.Base.Text.Search.{Text}
use exa_postgres_interface.Base.Text.Numbers.{
  is_ascii_digit, digits_from, parse_unsigned, parse_i64, decimal_on, to_decimal, show_ℤ,
}
use exa_postgres_interface.Base.Lists.{All, All-append}
use Prim.Native.Nat.{ℕ, zero, suc, ◌+◌, ◌/◌, ◌%◌, ◌<◌}
use mathlib.Core.Bool.{true}
use mathlib.Core.List.{[], ◌∷◌, ◌++◌, append-nil, append_assoc}
use mathlib.Core.Logic.{inl, inr}
use mathlib.Core.Option.{some}
use mathlib.Core.Path.{◌≡◌, ◌∙◌, subst}
use native.Mathlib.Omega.{arith}

-- The digits of a number are read as the number, with whatever follows.
pub digits_from-decimal_on :
    (fuel n : ℕ) (rest : Text)
    → n < fuel
    → digits_from 0 (decimal_on fuel n ++ rest) ≡ digits_from n rest
digits_from-decimal_on zero n rest h = absurd (omega arith)
digits_from-decimal_on (suc fuel) n rest h = elim (Bool-cases (ltb n 10)) [
  | inl small ↦ rw (small, decimal_on) (ground arith)
  | inr large ↦
      rw (large, decimal_on)
        (rw (append_assoc (decimal_on fuel (n / 10)) ((b'0' + n % 10) ∷ []) rest) (
          digits_from-decimal_on fuel (n / 10) ((b'0' + n % 10) ∷ rest) (ground arith)
          ∙ ground arith))
]

pub digits_from-to_decimal : (n : ℕ) → digits_from 0 (to_decimal n) ≡ some n
unfolding to_decimal
digits_from-to_decimal n =
    subst (λ t. digits_from 0 t ≡ some n) (append-nil (decimal_on (suc n) n))
      (digits_from-decimal_on (suc n) n [] (omega arith))

decimal_on_head :
    (fuel n : ℕ)
    → n < fuel
    → (c : ℕ) × (s : Text) × (decimal_on fuel n ≡ c ∷ s) × (is_ascii_digit c ≡ true)
decimal_on_head zero n h = absurd (omega arith)
decimal_on_head (suc fuel) n h = elim (Bool-cases (ltb n 10)) [
  | inl small ↦ (b'0' + n, [], rw (small, decimal_on), ground arith)
  | inr large ↦
      let (c, s, e, d) = decimal_on_head fuel (n / 10) (ground arith) in
      (c, s ++ (b'0' + n % 10) ∷ [], rw (large, decimal_on) (rw e), d)
]

-- The print of a number begins with a digit.
pub to_decimal_head :
    (n : ℕ) → (c : ℕ) × (s : Text) × (to_decimal n ≡ c ∷ s) × (is_ascii_digit c ≡ true)
unfolding to_decimal
to_decimal_head n = decimal_on_head (suc n) n (omega arith)

pub parse_unsigned-to_decimal :
    (limit n : ℕ) → n < limit → parse_unsigned limit (to_decimal n) ≡ some n
unfolding parse_unsigned
parse_unsigned-to_decimal limit n h =
    let (c, s, e, d) = to_decimal_head n in
    let f : digits_from 0 (c ∷ s) ≡ some n =
      subst (λ t. digits_from 0 t ≡ some n) e (digits_from-to_decimal n) in
    rw e (ground (arith, f, d))

pub parse_i64-show_ℤ : (z : ℤ) → IsI64 z → parse_i64 (show_ℤ z) ≡ some z
unfolding parse_i64 show_ℤ
parse_i64-show_ℤ (pos n) h =
    let (c, s, e, d) = to_decimal_head n in
    let f : digits_from 0 (c ∷ s) ≡ some n =
      subst (λ t. digits_from 0 t ≡ some n) e (digits_from-to_decimal n) in
    rw e (ground (arith, f, d))
parse_i64-show_ℤ (negsuc n) h =
    let (c, s, e, d) = to_decimal_head (suc n) in
    let f : digits_from 0 (c ∷ s) ≡ some (suc n) =
      subst (λ t. digits_from 0 t ≡ some (suc n)) e (digits_from-to_decimal (suc n)) in
    rw e (ground (arith, f, d))

decimal_on-All : (fuel n : ℕ) → All (λ c. is_ascii_digit c ≡ true) (decimal_on fuel n)
decimal_on-All zero n = tt
decimal_on-All (suc fuel) n = elim (Bool-cases (ltb n 10)) [
  | inl small ↦ rw (small, decimal_on) (ground arith, tt)
  | inr large ↦
      rw (large, decimal_on)
        (All-append (λ c. is_ascii_digit c ≡ true) (decimal_on fuel (n / 10)) _
          (decimal_on-All fuel (n / 10)) (ground arith, tt))
]

-- The print of a number has digits only.
pub to_decimal-All : (n : ℕ) → All (λ c. is_ascii_digit c ≡ true) (to_decimal n)
unfolding to_decimal
to_decimal-All n = decimal_on-All (suc n) n
