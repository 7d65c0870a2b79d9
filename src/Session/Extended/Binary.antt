-- ===== src/Session/Extended/Binary.antt =====
-- `render_binary_parameter`: a value in binary format as SQL.
pub mod BigEndian
use exa_postgres_interface.Base.{
  ℕ, ◌+◌, ◌-◌, ◌*◌, ◌^◌, ◌==◌, not, ltb, List, [], ◌∷◌, ◌++◌, Option, none, some, if◌then◌else◌,
  Result, ok, err, length, PgError,
}
use exa_postgres_interface.Base.Int.{ℤ, pos, negsuc}
use exa_postgres_interface.Base.Text.{Text, codes, to_decimal, show_ℤ}
use exa_postgres_interface.Cursor.{pg_error}
use exa_postgres_interface.Session.Simple.{sql_string_literal}
use exa_postgres_interface.Session.Types.{PgType}

unfoldable pub invalid_binary_parameter : ℕ → Text → PgError
unfolding to_decimal
invalid_binary_parameter idx type_name = pg_error (codes "08P01") (
    codes "invalid binary prepared statement parameter "
    ++ to_decimal (idx + 1)
    ++ codes " for PostgreSQL type "
    ++ type_name)

-- The bytes read by `byteorder`, the highest first, and their value as a signed number of `w` bits.
abbrev pub big_endian : ℕ → List ℕ → ℕ
big_endian n [] = n
big_endian n (b ∷ bytes) = big_endian (n * 256 + b) bytes

abbrev pub signed : ℕ → ℕ → ℤ
signed w n = if ltb n (2 ^ (w - 1)) then pos n else negsuc (2 ^ w - 1 - n)

-- `Type::name`
abbrev pub type_name : PgType → Text
type_name PgType.bool = codes "bool"
type_name PgType.int2 = codes "int2"
type_name PgType.int4 = codes "int4"
type_name PgType.int8 = codes "int8"
type_name PgType.float8 = codes "float8"
type_name PgType.numeric = codes "numeric"
type_name PgType.text = codes "text"
type_name PgType.varchar = codes "varchar"
type_name PgType.bpchar = codes "bpchar"
type_name PgType.name = codes "name"
type_name PgType.unknown = codes "unknown"
type_name PgType.date = codes "date"
type_name PgType.timestamp = codes "timestamp"
type_name PgType.timestamptz = codes "timestamptz"
type_name (PgType.other s) = s

unfoldable pub render_int : ℕ → Text → ℕ → List ℕ → Result Text
unfolding show_ℤ invalid_binary_parameter
render_int size label idx bytes =
    if not (length bytes == size)
    then err (invalid_binary_parameter idx label)
    else ok (show_ℤ (signed (8 * size) (big_endian 0 bytes)))

unfoldable pub render_bool : ℕ → List ℕ → Result Text
unfolding invalid_binary_parameter
render_bool idx (b ∷ []) = ok (if b == 0 then codes "FALSE" else codes "TRUE")
render_bool idx _ = err (invalid_binary_parameter idx (codes "bool"))

unfoldable pub render_text : (List ℕ → Option Text) → PgType → ℕ → List ℕ → Result Text
unfolding sql_string_literal invalid_binary_parameter
render_text from_utf8 pg_type idx bytes = elim (from_utf8 bytes) [
  | none ↦ err (invalid_binary_parameter idx (type_name pg_type))
  | some text ↦ ok (sql_string_literal text)
]

unfoldable pub render_binary_parameter : (List ℕ → Option Text) → List ℕ → PgType → ℕ → Result Text
unfolding render_int render_bool render_text
render_binary_parameter from_utf8 bytes PgType.bool idx = render_bool idx bytes
render_binary_parameter from_utf8 bytes PgType.int2 idx = render_int 2 (codes "int2") idx bytes
render_binary_parameter from_utf8 bytes PgType.int4 idx = render_int 4 (codes "int4") idx bytes
render_binary_parameter from_utf8 bytes PgType.int8 idx = render_int 8 (codes "int8") idx bytes
render_binary_parameter from_utf8 bytes pg_type idx = render_text from_utf8 pg_type idx bytes
