-- ===== src/Session/Extended/Binary/BigEndian.antt =====
-- Integers in binary format are read back: `render_binary_parameter` on the bytes that a client sends
-- for a number.
use exa_postgres_interface.Base.{ℕ, zero, suc, ◌-◌, ◌*◌, ◌/◌, ◌%◌, ◌^◌, ◌<◌, List, [], ◌∷◌, ◌++◌}
use exa_postgres_interface.Base.Int.{ℤ, pos, negsuc}
use exa_postgres_interface.Base.Text.{Text}
use exa_postgres_interface.Session.Types.{PgType}

-- The bytes of a number, the highest first.
abbrev pub to_bytes : ℕ → ℕ → List ℕ
to_bytes zero n = []
to_bytes (suc size) n = to_bytes size (n / 256) ++ n % 256 ∷ []

-- The bits of a signed number of `w` bits.
abbrev pub to_bits : ℕ → ℤ → ℕ
to_bits w (pos n) = n
to_bits w (negsuc n) = 2 ^ w - 1 - n

-- A signed number that fits `w` bits.
abbrev pub IsFit : ℕ → ℤ → Type 0
IsFit w (pos n) = n < 2 ^ (w - 1)
IsFit w (negsuc n) = n < 2 ^ (w - 1)

abbrev byte_power : ℕ → ℕ
byte_power zero = 1
byte_power (suc size) = byte_power size * 256

-- The integer types and their sizes.
pub data IntType : Type 0 where
  int2 int4 int8 : IntType

abbrev pub size_of : IntType → ℕ
size_of IntType.int2 = 2
size_of IntType.int4 = 4
size_of IntType.int8 = 8

abbrev pub pg_type_of : IntType → PgType
pg_type_of IntType.int2 = PgType.int2
pg_type_of IntType.int4 = PgType.int4
pg_type_of IntType.int8 = PgType.int8
