-- ===== src/Session/TypesAgree.antt =====
-- The types of a column over the two transports.
use exa_postgres_interface.Base.{none, some, ◌≡◌, sym, ◌∙◌}
use exa_postgres_interface.Base.Int.{ℤ, pos, IsI64}
use exa_postgres_interface.Base.Text.{Text, codes, to_ascii_uppercase, show_ℤ, parse_i64-show_ℤ}
use exa_postgres_interface.Exasol.Json.{Json, Kind}
use exa_postgres_interface.Policy.Regexes.{Regexes}
use exa_postgres_interface.Session.Types.{
  PgType, Field, json_number, metadata_number, json_type_name, pg_type_for_exasol_data_type,
  pg_type_from_exasol_metadata, pg_type_for_arrow_field, decimal_pg_type,
}

-- The types that Exasol describes in the same words over both transports.
pub data SharedType : Type 0 where
  boolean decimal double date char varchar hashtype : SharedType

abbrev pub type_text : SharedType → Text
type_text SharedType.boolean = codes "BOOLEAN"
type_text SharedType.decimal = codes "DECIMAL"
type_text SharedType.double = codes "DOUBLE"
type_text SharedType.date = codes "DATE"
type_text SharedType.char = codes "CHAR"
type_text SharedType.varchar = codes "VARCHAR"
type_text SharedType.hashtype = codes "HASHTYPE"

-- A number of a description that both transports give, or neither.
pub data IsSameNumber {Value : Type 0} (j : Json Value) (v : Value) (field : Field)
    (key field_key : Text) : Type 0 where
  absent :
      j.get v key ≡ none → field.metadata field_key ≡ none → IsSameNumber j v field key field_key
  present :
      (z : ℤ) (value : Value)
      → IsI64 z
      → j.get v key ≡ some value
      → j.as_i64 value ≡ some z
      → field.metadata field_key ≡ some (show_ℤ z)
      → IsSameNumber j v field key field_key

-- The precision and the scale; only those of a DECIMAL matter.
abbrev pub HasSameNumbers : {Value : Type 0} → Json Value → Value → Field → SharedType → Type 0
HasSameNumbers j v field SharedType.decimal =
    IsSameNumber j v field (codes "precision") (codes "exasol:precision")
    × IsSameNumber j v field (codes "scale") (codes "exasol:scale")
HasSameNumbers j v field _ = Unit {0}

-- A JSON description of a column, and an Arrow field that carries the same description.
pub record SameColumn {Value : Type 0} (j : Json Value) (v : Value) (field : Field) : Type 0 where
  pub shared : SharedType
  pub name : Text
  pub json : Text
  pub name_value : Value
  pub object : j.kind v ≡ Kind.object
  pub has_name : j.get v (codes "type") ≡ some name_value
  pub named : j.kind name_value ≡ Kind.string name
  pub upper : to_ascii_uppercase name ≡ type_text shared
  pub described : field.metadata (codes "exasol:type") ≡ some json
  pub parsed : j.parse json ≡ some v
  pub numbers : HasSameNumbers j v field shared

shared_pg_type : SharedType → ℤ → ℤ → PgType
shared_pg_type SharedType.boolean precision scale = PgType.bool
shared_pg_type SharedType.decimal precision scale = decimal_pg_type precision scale
shared_pg_type SharedType.double precision scale = PgType.float8
shared_pg_type SharedType.date precision scale = PgType.date
shared_pg_type SharedType.char precision scale = PgType.varchar
shared_pg_type SharedType.varchar precision scale = PgType.varchar
shared_pg_type SharedType.hashtype precision scale = PgType.varchar

-- Both sides read the same number.
metadata_number-json_number :
    {Value : Type 0} (j : Json Value) (v : Value) (field : Field) (key field_key : Text)
    (default : ℤ)
    → IsSameNumber j v field key field_key
    → metadata_number field field_key default ≡ json_number j v key default
unfolding metadata_number json_number
metadata_number-json_number j v field key field_key default (absent e f) =
    rw (f, metadata_number) (rw (e, json_number))
metadata_number-json_number j v field key field_key default (present z value h e n f) =
    rw (f, metadata_number) (rw (parse_i64-show_ℤ z h) (rw (e, json_number) (rw n)))

module _ {Value : Type 0} (j : Json Value) (v : Value) (field : Field)
    (c : SameColumn j v field) where
  arrow_side :
      (e : SharedType)
      → to_ascii_uppercase c.name ≡ type_text e
      → HasSameNumbers j v field e
      → pg_type_for_arrow_field j field
        ≡ shared_pg_type e
            (json_number j v (codes "precision") (pos 36))
            (json_number j v (codes "scale") (pos 0))
  unfolding pg_type_for_arrow_field pg_type_from_exasol_metadata shared_pg_type
  arrow_side SharedType.boolean u same =
      rw (c.described, pg_type_for_arrow_field)
        (rw (c.parsed, pg_type_from_exasol_metadata) (rw c.has_name (rw c.named (rw u))))
  arrow_side SharedType.double u same =
      rw (c.described, pg_type_for_arrow_field)
        (rw (c.parsed, pg_type_from_exasol_metadata) (rw c.has_name (rw c.named (rw u))))
  arrow_side SharedType.date u same =
      rw (c.described, pg_type_for_arrow_field)
        (rw (c.parsed, pg_type_from_exasol_metadata) (rw c.has_name (rw c.named (rw u))))
  arrow_side SharedType.char u same =
      rw (c.described, pg_type_for_arrow_field)
        (rw (c.parsed, pg_type_from_exasol_metadata) (rw c.has_name (rw c.named (rw u))))
  arrow_side SharedType.varchar u same =
      rw (c.described, pg_type_for_arrow_field)
        (rw (c.parsed, pg_type_from_exasol_metadata) (rw c.has_name (rw c.named (rw u))))
  arrow_side SharedType.hashtype u same =
      rw (c.described, pg_type_for_arrow_field)
        (rw (c.parsed, pg_type_from_exasol_metadata) (rw c.has_name (rw c.named (rw u))))
  arrow_side SharedType.decimal u same =
      rw (c.described, pg_type_for_arrow_field)
        (rw (c.parsed, pg_type_from_exasol_metadata)
          (rw c.has_name (
            rw c.named (
              rw u (
                rw
                  (metadata_number-json_number j v field (codes "precision")
                    (codes "exasol:precision") (pos 36) same.0)
                  (rw (
                    metadata_number-json_number j v field (codes "scale") (codes "exasol:scale")
                      (pos 0) same.1)))))))

  type_name : json_type_name j v ≡ c.name
  unfolding json_type_name
  type_name = rw (c.object, json_type_name) (rw c.has_name (rw c.named))

  json_side :
      (r : Regexes) (e : SharedType)
      → to_ascii_uppercase c.name ≡ type_text e
      → pg_type_for_exasol_data_type j r v
        ≡ shared_pg_type e
            (json_number j v (codes "precision") (pos 36))
            (json_number j v (codes "scale") (pos 0))
  unfolding pg_type_for_exasol_data_type shared_pg_type decimal_pg_type
  json_side r SharedType.boolean u = rw (type_name, pg_type_for_exasol_data_type) (rw u)
  json_side r SharedType.double u = rw (type_name, pg_type_for_exasol_data_type) (rw u)
  json_side r SharedType.date u = rw (type_name, pg_type_for_exasol_data_type) (rw u)
  json_side r SharedType.char u = rw (type_name, pg_type_for_exasol_data_type) (rw u)
  json_side r SharedType.varchar u = rw (type_name, pg_type_for_exasol_data_type) (rw u)
  json_side r SharedType.hashtype u = rw (type_name, pg_type_for_exasol_data_type) (rw u)
  json_side r SharedType.decimal u = rw (type_name, pg_type_for_exasol_data_type) (rw u)

-- A column of one of the shared types gets the same PostgreSQL type whether its result comes over the
-- WebSocket or in Arrow, if both give it the same type and, for a DECIMAL, the same precision and scale,
-- or neither gives one.
pub pg_type_for_arrow_field-pg_type_for_exasol_data_type :
    {Value : Type 0} (j : Json Value) (r : Regexes) (v : Value) (field : Field)
    → SameColumn j v field
    → pg_type_for_arrow_field j field ≡ pg_type_for_exasol_data_type j r v
pg_type_for_arrow_field-pg_type_for_exasol_data_type j r v field c =
    arrow_side j v field c c.shared c.upper c.numbers
    ∙ sym (json_side j v field c r c.shared c.upper)
