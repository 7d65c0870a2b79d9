-- ===== src/Metadata/Typmod.antt =====
-- The type modifier of a decimal holds its precision and its scale.
use exa_postgres_interface.Base.{
  ℕ, zero, suc, ◌+◌, ◌-◌, ◌*◌, ◌/◌, ◌%◌, ◌^◌, ◌<◌, ◌≤◌, max, lt→ltb, ◌≡◌, refl, sym, ◌∙◌, arith,
}
use exa_postgres_interface.Base.Int.{pos}
use exa_postgres_interface.Metadata.Types.{wrap_i32, decimal_typmod}
use native.Mathlib.Nat.{mul_assoc}
use Prim.Native.Nat.{bit_or, bit_or-bitwise, digits}

abbrev or_digits : ℕ → ℕ → ℕ → ℕ
or_digits n a b = digits (λ b. b) max n a b

or_digits_zero : (n a : ℕ) → a ≤ n → or_digits n a 0 ≡ a
or_digits_zero zero a h = omega arith
or_digits_zero (suc n) zero h = refl
or_digits_zero (suc n) (suc a) h = rw (or_digits_zero n (suc a / 2) (omega arith)) (omega arith)

abbrev two_power : ℕ → ℕ
two_power zero = 1
two_power (suc k) = two_power k * 2

-- Nothing of the second number lies above the `k` zeros at the end of the first.
or_digits_shift :
    (k n a b x : ℕ) → x ≡ a * two_power k → x ≤ n → b < two_power k → or_digits n x b ≡ x + b
or_digits_shift k zero a b x e h l = omega (arith, h)
or_digits_shift k (suc n) a b zero e h l = omega arith
or_digits_shift zero (suc n) a b (suc x) e h l =
    let z : b ≡ 0 = omega (arith, l) in rw z (or_digits_zero (suc n) (suc x) h ∙ omega arith)
or_digits_shift (suc k) (suc n) a b (suc x) e h l =
    let p = two_power k in
    let f : suc x ≡ a * p * 2 = e ∙ sym (mul_assoc a p 2) in
    let half : suc x / 2 ≡ a * p = omega (arith, f) in
    let even : suc x % 2 ≡ 0 = omega (arith, f) in
    rw (or_digits_shift k n a (b / 2) (suc x / 2) half (omega arith) (omega (arith, l)))
      (omega (arith, even))

bit_or_shift : (a b : ℕ) → b < 2 ^ 16 → bit_or (a * 2 ^ 16) b ≡ a * 2 ^ 16 + b
bit_or_shift a b h =
    bit_or-bitwise (a * 2 ^ 16) b
    ∙ or_digits_shift 16 (a * 2 ^ 16) a b (a * 2 ^ 16) refl (omega arith) h

-- PostgreSQL keeps the precision in the upper 16 bits of the modifier less 4, and the scale in the
-- lower: for precisions below 2^15 and scales that leave room for the 4, the modifier is that number.
pub decimal_typmod_lem :
    (precision scale : ℕ)
    → precision < 2 ^ 15
    → scale < 2 ^ 16 - 4
    → (n : ℕ) × (decimal_typmod precision scale ≡ pos n)
      × ((n - 4) / 2 ^ 16 ≡ precision)
      × ((n - 4) % 2 ^ 16 ≡ scale)
unfolding decimal_typmod wrap_i32
decimal_typmod_lem precision scale p s =
    let n = precision * 2 ^ 16 + scale + 4 in
    let m : precision * 2 ^ 16 % 2 ^ 32 ≡ precision * 2 ^ 16 = omega (arith, p) in
    let w : n % 2 ^ 32 ≡ n = omega (arith, p, s) in
    (
      n,
      rw (m, decimal_typmod)
          (rw (bit_or_shift precision scale (omega (arith, s)))
            (rw w (rw (lt→ltb n (2 ^ 31) (omega (arith, p, s)))))),
      omega arith,
      omega (arith, s),
    )
