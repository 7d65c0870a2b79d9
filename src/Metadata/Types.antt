-- ===== src/Metadata/Types.antt =====
-- `map_exasol_column_type`: the PostgreSQL type, type modifier and length of an Exasol type.
use exa_postgres_interface.Base.{
  ℕ, ◌+◌, ◌-◌, ◌*◌, ◌%◌, ◌^◌, ◌||◌, ltb, Option, none, some, if◌then◌else◌,
}
use exa_postgres_interface.Base.Int.{ℤ, pos, negsuc}
use exa_postgres_interface.Base.Text.{
  Text, codes, text_eq, trim, to_ascii_uppercase, contains, parse_unsigned,
}
use exa_postgres_interface.Policy.Regexes.{Regexes}
use Prim.Native.Nat.{bit_or}

pub record PgTypeInfo : Type 0 where
  pub oid : ℕ
  pub typmod : ℤ
  pub typlen : ℤ
  pub typtype : Text
  pub typbasetype : ℕ

abbrev pub decimal_re : Text
decimal_re = codes "(?i)^DECIMAL\\((\\d+),\\s*(\\d+)\\)$"

abbrev pub varchar_re : Text
varchar_re = codes "(?i)^VARCHAR\\((\\d+)\\)"

abbrev pub char_re : Text
char_re = codes "(?i)^CHAR\\((\\d+)\\)"

abbrev pub timestamp_re : Text
timestamp_re = codes "(?i)^TIMESTAMP(?:\\((\\d+)\\))?"

-- The `i32` of a pattern of 32 bits.
unfoldable pub wrap_i32 : ℕ → ℤ
wrap_i32 n = let m = n % 2 ^ 32 in if ltb m (2 ^ 31) then pos m else negsuc (2 ^ 32 - 1 - m)

abbrev pub type_info : ℕ → ℤ → ℤ → PgTypeInfo
type_info oid typmod typlen = record {
  oid = oid;
  typmod = typmod;
  typlen = typlen;
  typtype = codes "b";
  typbasetype = 0;
}

-- `parse::<i32>` of a group of digits, or a default.
abbrev pub group_or : (Text → Option Text) → Text → ℕ → ℕ
group_or group name default = elim (group name) [
  | none ↦ default
  | some m ↦ elim (parse_unsigned (2 ^ 31) m) [ none ↦ default | some n ↦ n ]
]

-- `((precision << 16) | scale) + 4` with the bits that an `i32` keeps.
unfoldable pub decimal_typmod : ℕ → ℕ → ℤ
unfolding wrap_i32
decimal_typmod precision scale = wrap_i32 (bit_or (precision * 2 ^ 16 % 2 ^ 32) scale + 4)

unfoldable pub plain_type : Text → PgTypeInfo
plain_type upper =
    if text_eq upper (codes "BOOLEAN")
    then type_info 16 (negsuc 0) (pos 1)
    else if text_eq upper (codes "DATE")
    then type_info 1082 (negsuc 0) (pos 4)
    else if text_eq upper (codes "DOUBLE") || text_eq upper (codes "DOUBLE PRECISION")
    then type_info 701 (negsuc 0) (pos 8)
    else if text_eq upper (codes "REAL")
    then type_info 700 (negsuc 0) (pos 4)
    else if text_eq upper (codes "INTERVAL DAY TO SECOND")
        || text_eq upper (codes "INTERVAL YEAR TO MONTH")
        || text_eq upper (codes "INTERVAL")
    then type_info 1186 (negsuc 0) (pos 16)
    else type_info 25 (negsuc 0) (negsuc 0)

abbrev pub timestamp_oid : Text → ℕ
timestamp_oid upper =
    if contains upper (codes "WITH LOCAL TIME ZONE") || contains upper (codes "WITH TIME ZONE")
    then 1184
    else 1114

unfoldable pub map_upper_type : Regexes → Text → PgTypeInfo
unfolding parse_unsigned contains decimal_typmod wrap_i32 plain_type
map_upper_type r upper = elim (r.captures decimal_re upper) [
  | some group ↦
      type_info 1700 (decimal_typmod (group_or group (codes "1") 36) (group_or group (codes "2") 0))
        (negsuc 0)
  | none ↦ elim (r.captures varchar_re upper) [
    | some group ↦ type_info 1043 (wrap_i32 (group_or group (codes "1") 2000 + 4)) (negsuc 0)
    | none ↦ elim (r.captures char_re upper) [
      | some group ↦ type_info 1042 (wrap_i32 (group_or group (codes "1") 1 + 4)) (negsuc 0)
      | none ↦ elim (r.captures timestamp_re upper) [
        | some group ↦
            type_info (timestamp_oid upper) (wrap_i32 (group_or group (codes "1") 6 + 4)) (pos 8)
        | none ↦ plain_type upper
      ]
    ]
  ]
]

unfoldable pub map_exasol_column_type : Regexes → Text → PgTypeInfo
unfolding trim to_ascii_uppercase map_upper_type
map_exasol_column_type r exasol_type = map_upper_type r (to_ascii_uppercase (trim exasol_type))
