-- ===== src/Base/Text/Numbers.antt =====
-- `str::parse::<i64>` and `to_string` of numbers.
use exa_postgres_interface.Base.Tests.{◌==◌, ltb, leb, if◌then◌else◌}
use exa_postgres_interface.Base.Int.{ℤ, pos, negsuc, sub_ℕ}
use exa_postgres_interface.Base.Text.Search.{Text}
use Prim.Native.Nat.{ℕ, zero, suc, ◌+◌, ◌-◌, ◌*◌, ◌/◌, ◌%◌, ◌^◌}
use mathlib.Core.Bool.{Bool, true, false, ◌&&◌}
use mathlib.Core.List.{[], ◌∷◌, ◌++◌}
use mathlib.Core.Option.{Option, none, some}

abbrev pub is_ascii_digit : ℕ → Bool
is_ascii_digit c = leb b'0' c && leb c b'9'

abbrev pub digits_from : ℕ → Text → Option ℕ
digits_from n [] = some n
digits_from n (c ∷ s) = if is_ascii_digit c then digits_from (n * 10 + (c - b'0')) s else none

abbrev pub digits : Text → Option ℕ
digits [] = none
digits (c ∷ s) = digits_from 0 (c ∷ s)

abbrev pub bounded : ℕ → Option ℕ → Option ℕ
bounded limit none = none
bounded limit (some n) = if ltb n limit then some n else none

abbrev pub below : ℕ → (ℕ → ℤ) → Option ℕ → Option ℤ
below limit f none = none
below limit f (some n) = if ltb n limit then some (f n) else none

-- An optional sign and decimal digits, in the range of the type.
unfoldable pub parse_i64 : Text → Option ℤ
parse_i64 [] = none
parse_i64 (c ∷ s) =
    if c == b'-'
    then below (2 ^ 63 + 1) (sub_ℕ 0) (digits s)
    else if c == b'+'
    then below (2 ^ 63) pos (digits s)
    else below (2 ^ 63) pos (digits (c ∷ s))

-- The same for an unsigned type of values below the limit.
unfoldable pub parse_unsigned : ℕ → Text → Option ℕ
parse_unsigned limit [] = none
parse_unsigned limit (c ∷ s) = bounded limit (if c == b'+' then digits s else digits (c ∷ s))

abbrev pub decimal_on : ℕ → ℕ → Text
decimal_on zero n = []
decimal_on (suc fuel) n = elim (ltb n 10) [
  | true ↦ (b'0' + n) ∷ []
  | false ↦ decimal_on fuel (n / 10) ++ (b'0' + n % 10) ∷ []
]

-- A number has fewer digits than its successor has units.
unfoldable pub to_decimal : ℕ → Text
to_decimal n = decimal_on (suc n) n

-- `to_string` of a signed number.
unfoldable pub show_ℤ : ℤ → Text
unfolding to_decimal
show_ℤ (pos n) = to_decimal n
show_ℤ (negsuc n) = b'-' ∷ to_decimal (suc n)
