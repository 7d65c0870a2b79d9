-- ===== src/Base/Int.antt =====
-- Rust's `i64` and `isize` on a 64-bit target: signed integers over the native numbers, whose sums
-- and negations wrap around as release builds do (Cargo.toml sets no `overflow-checks`).
use exa_postgres_interface.Base.Tests.{ltb, leb, if◌then◌else◌}
use Prim.Native.Nat.{ℕ, suc, ◌+◌, ◌-◌, ◌%◌, ◌^◌, ◌≤◌, ◌<◌}
use mathlib.Core.Bool.{Bool, ◌&&◌}
use mathlib.Core.Path.{◌≡◌, refl}
use native.Mathlib.Omega.{arith}

-- `negsuc n` is -(n + 1).
pub data ℤ : Type 0 where
  pos : ℕ → ℤ
  negsuc : ℕ → ℤ

abbrev pub pos_part : ℤ → ℕ
pos_part (pos n) = n
pos_part (negsuc n) = 0

abbrev pub neg_part : ℤ → ℕ
neg_part (pos n) = 0
neg_part (negsuc n) = suc n

-- a - b, as an integer.
abbrev pub sub_ℕ : ℕ → ℕ → ℤ
sub_ℕ a b = if leb b a then pos (a - b) else negsuc (b - a - 1)

infixl 65 ◌+ℤ◌
infix 50 ◌≤ℤ◌
abbrev pub ◌+ℤ◌ : ℤ → ℤ → ℤ
a +ℤ b = sub_ℕ (pos_part a + pos_part b) (neg_part a + neg_part b)

abbrev pub -ℤ◌ : ℤ → ℤ
-ℤ◌ a = sub_ℕ (neg_part a) (pos_part a)

abbrev pub ◌≤ℤ◌ : ℤ → ℤ → Type 0
a ≤ℤ b = pos_part a + neg_part b ≤ pos_part b + neg_part a

abbrev pub ltb_ℤ : ℤ → ℤ → Bool
ltb_ℤ a b = ltb (pos_part a + neg_part b) (pos_part b + neg_part a)

abbrev pub leb_ℤ : ℤ → ℤ → Bool
leb_ℤ a b = leb (pos_part a + neg_part b) (pos_part b + neg_part a)

abbrev pub eq_ℤ : ℤ → ℤ → Bool
eq_ℤ a b = leb_ℤ a b && leb_ℤ b a

-- `min` and `clamp` of `Ord`; `as usize` of a value that is not negative.
abbrev pub min_ℤ : ℤ → ℤ → ℤ
min_ℤ a b = if leb_ℤ a b then a else b

abbrev pub clamp : ℤ → ℤ → ℤ → ℤ
clamp x lo hi = if ltb_ℤ x lo then lo else if ltb_ℤ hi x then hi else x

-- The value of a 64-bit pattern as a signed number.
abbrev pub wrap_i64 : ℤ → ℤ
wrap_i64 (pos n) = let m = n % 2 ^ 64 in if ltb m (2 ^ 63) then pos m else negsuc (2 ^ 64 - 1 - m)
wrap_i64 (negsuc n) =
    let m = n % 2 ^ 64 in if ltb m (2 ^ 63) then negsuc m else pos (2 ^ 64 - 1 - m)

unfoldable pub add_i64 : ℤ → ℤ → ℤ
add_i64 a b = wrap_i64 (a +ℤ b)

unfoldable pub neg_i64 : ℤ → ℤ
neg_i64 a = wrap_i64 (-ℤ◌ a)

unfoldable pub sub_i64 : ℤ → ℤ → ℤ
sub_i64 a b = wrap_i64 (a +ℤ (-ℤ◌ b))

abbrev pub i64_min : ℤ
i64_min = negsuc (2 ^ 63 - 1)

abbrev pub IsI64 : ℤ → Type 0
IsI64 (pos n) = n < 2 ^ 63
IsI64 (negsuc n) = n < 2 ^ 63

pub wrap_i64_of_IsI64 : (a : ℤ) → IsI64 a → wrap_i64 a ≡ a
wrap_i64_of_IsI64 (pos n) h = ground arith
wrap_i64_of_IsI64 (negsuc n) h = ground arith

-- `x as usize` of a 64-bit value.
abbrev pub as_usize : ℤ → ℕ
as_usize (pos n) = n
as_usize (negsuc n) = 2 ^ 64 - 1 - n

unfoldable pub saturating_sub_i64 : ℤ → ℤ → ℤ
saturating_sub_i64 a b = clamp (a +ℤ (-ℤ◌ b)) i64_min (pos (2 ^ 63 - 1))

-- Sums and differences of numbers that are not negative, where nothing overflows.
pub add_i64_pos : (a b : ℕ) → a + b < 2 ^ 63 → add_i64 (pos a) (pos b) ≡ pos (a + b)
unfolding add_i64
add_i64_pos a b h = ground arith

pub sub_i64_pos : (a b : ℕ) → a < 2 ^ 63 → b < 2 ^ 63 → sub_i64 (pos a) (pos b) ≡ sub_ℕ a b
unfolding sub_i64
sub_i64_pos a b h g = ground arith

pub saturating_sub_i64_pos :
    (a b : ℕ) → a < 2 ^ 63 → b ≤ a → saturating_sub_i64 (pos a) (pos b) ≡ pos (a - b)
unfolding saturating_sub_i64
saturating_sub_i64_pos a b h g = ground arith

pub neg_i64_of_IsI64 : (n : ℕ) → suc n < 2 ^ 63 → neg_i64 (negsuc n) ≡ pos (suc n)
unfolding neg_i64
neg_i64_of_IsI64 n h = ground arith

-- The one negation that overflows gives its argument back.
pub neg_i64_min : neg_i64 i64_min ≡ i64_min
unfolding neg_i64
neg_i64_min = refl

-- Taking `r` away from `q + 1` by way of `q - r`, which may be -1.
pub add_i64-sub_i64 :
    (q r : ℕ)
    → q < 2 ^ 63 - 1
    → r ≤ q + 1
    → add_i64 (sub_i64 (pos q) (pos r)) (pos 1) ≡ pos (q + 1 - r)
unfolding add_i64 sub_i64
add_i64-sub_i64 q r h g = ground arith
