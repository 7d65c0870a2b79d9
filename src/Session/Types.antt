-- ===== src/Session/Types.antt =====
-- The columns of an answer: their labels and PostgreSQL types, from the JSON of the WebSocket
-- transport or from the Arrow schema.
use exa_postgres_interface.Base.{
  ℕ, Bool, true, false, ◌&&◌, ◌||◌, ◌==◌, leb, any, List, [], map, Option, none, some,
  if◌then◌else◌,
}
use exa_postgres_interface.Base.Int.{ℤ, pos, leb_ℤ, eq_ℤ}
use exa_postgres_interface.Base.Text.{
  Text, codes, text_eq, to_ascii_uppercase, to_ascii_lowercase, parse_i64,
}
use exa_postgres_interface.Crates.{Crates}
use exa_postgres_interface.Cursor.{ExasolColumn}
use exa_postgres_interface.Exasol.Json.{Json, as_str, member}
use exa_postgres_interface.Metadata.Types.{map_exasol_column_type}
use exa_postgres_interface.Policy.Regexes.{Regexes}
use exa_postgres_interface.Session.{GatewayResponse}

-- `Type` of the crate postgres_types: those the gateway names, and others by their name.
pub data PgType : Type 0 where
  bool int2 int4 int8 float8 numeric text varchar bpchar name unknown date timestamp timestamptz :
      PgType
  other : Text → PgType

unfoldable pub fold_exasol_column_name : Text → Text
unfolding to_ascii_lowercase
fold_exasol_column_name label =
    if any (λ c. leb b'a' c && leb c b'z') label then label else to_ascii_lowercase label

unfoldable pub maybe_fold_label : Text → Bool → Text
unfolding fold_exasol_column_name
maybe_fold_label label fold_labels = if fold_labels then fold_exasol_column_name label else label

unfoldable pub decimal_pg_type : ℤ → ℤ → PgType
decimal_pg_type precision scale =
    if eq_ℤ scale (pos 0) && leb_ℤ precision (pos 9) then PgType.int4 else PgType.numeric

abbrev pub number_or {ℓ} : {A : Type ℓ} → Option A → A → A
number_or none z = z
number_or (some n) z = n

-- The type behind an object identifier.
unfoldable pub type_of_oid : ℕ → PgType
type_of_oid oid =
    if oid == 16
    then PgType.bool
    else if oid == 1082
    then PgType.date
    else if oid == 1114
    then PgType.timestamp
    else if oid == 1184
    then PgType.timestamptz
    else if oid == 1700
    then PgType.numeric
    else if oid == 700 || oid == 701
    then PgType.float8
    else if oid == 1042 || oid == 1043
    then PgType.varchar
    else PgType.text

module _ {Value : Type 0} (j : Json Value) where
  -- The name of a type: the value itself if it is a string, or its member `type` or `name`.
  unfoldable pub json_type_name : Value → Text
  json_type_name data_type = elim (as_str j data_type) [
    | some s ↦ s
    | none ↦ elim (member j data_type (codes "type") (as_str j)) [
      | some s ↦ s
      | none ↦ elim (member j data_type (codes "name") (as_str j)) [
        | some s ↦ s
        | none ↦ codes "VARCHAR"
      ]
    ]
  ]

  unfoldable pub json_number : Value → Text → ℤ → ℤ
  json_number data_type key default = elim (j.get data_type key) [
    | none ↦ default
    | some v ↦ number_or (j.as_i64 v) default
  ]

  abbrev rendered_type : Value → Text
  rendered_type data_type = elim (as_str j data_type) [ some s ↦ s | none ↦ j.render data_type ]

module _ {Value : Type 0} (j : Json Value) (r : Regexes) where
  unfoldable pub pg_type_for_exasol_data_type : Value → PgType
  unfolding json_type_name json_number to_ascii_uppercase map_exasol_column_type type_of_oid
  pg_type_for_exasol_data_type data_type =
      let upper = to_ascii_uppercase (json_type_name j data_type) in
      let scale = json_number j data_type (codes "scale") (pos 0) in
      let precision = json_number j data_type (codes "precision") (pos 36) in
      if text_eq upper (codes "BOOLEAN") || text_eq upper (codes "BOOL")
      then PgType.bool
      else if text_eq upper (codes "DECIMAL") || text_eq upper (codes "NUMERIC")
      then (if eq_ℤ scale (pos 0) && leb_ℤ precision (pos 9) then PgType.int4 else PgType.numeric)
      else if text_eq upper (codes "DOUBLE") || text_eq upper (codes "DOUBLE PRECISION")
      then PgType.float8
      else if text_eq upper (codes "DATE")
      then PgType.date
      else if text_eq upper (codes "TIMESTAMP")
      then PgType.timestamp
      else if text_eq upper (codes "TIMESTAMP WITH LOCAL TIME ZONE")
          || text_eq upper (codes "TIMESTAMP WITH TIME ZONE")
      then PgType.timestamptz
      else if text_eq upper (codes "CHAR")
          || text_eq upper (codes "VARCHAR")
          || text_eq upper (codes "HASHTYPE")
      then PgType.varchar
      else type_of_oid (map_exasol_column_type r (rendered_type j data_type)).oid

-- `DataType` of the crate arrow, as far as it is looked at; `true` is a timestamp with a time zone.
pub data DataType : Type 0 where
  boolean int8 int16 int32 uint8 uint16 uint32 int64 uint64 float32 float64 : DataType
  decimal128 decimal256 : (precision scale : ℤ) → DataType
  date32 date64 utf8 large_utf8 other : DataType
  timestamp : Bool → DataType

-- `Field` of the crate arrow.
pub record Field : Type 0 where
  pub name : Text
  pub data_type : DataType
  pub metadata : Text → Option Text

unfoldable pub pg_type_for_arrow_data_type : DataType → PgType
unfolding decimal_pg_type
pg_type_for_arrow_data_type DataType.boolean = PgType.bool
pg_type_for_arrow_data_type DataType.int8 = PgType.int4
pg_type_for_arrow_data_type DataType.int16 = PgType.int4
pg_type_for_arrow_data_type DataType.int32 = PgType.int4
pg_type_for_arrow_data_type DataType.uint8 = PgType.int4
pg_type_for_arrow_data_type DataType.uint16 = PgType.int4
pg_type_for_arrow_data_type DataType.uint32 = PgType.int4
pg_type_for_arrow_data_type DataType.int64 = PgType.numeric
pg_type_for_arrow_data_type DataType.uint64 = PgType.numeric
pg_type_for_arrow_data_type DataType.float32 = PgType.float8
pg_type_for_arrow_data_type DataType.float64 = PgType.float8
pg_type_for_arrow_data_type (DataType.decimal128 precision scale) = decimal_pg_type precision scale
pg_type_for_arrow_data_type (DataType.decimal256 precision scale) = decimal_pg_type precision scale
pg_type_for_arrow_data_type DataType.date32 = PgType.date
pg_type_for_arrow_data_type DataType.date64 = PgType.date
pg_type_for_arrow_data_type (DataType.timestamp false) = PgType.timestamp
pg_type_for_arrow_data_type (DataType.timestamp true) = PgType.timestamptz
pg_type_for_arrow_data_type DataType.utf8 = PgType.varchar
pg_type_for_arrow_data_type DataType.large_utf8 = PgType.varchar
pg_type_for_arrow_data_type DataType.other = PgType.text

abbrev has_time_zone : DataType → Bool
has_time_zone (DataType.timestamp zone) = zone
has_time_zone _ = false

unfoldable pub metadata_number : Field → Text → ℤ → ℤ
unfolding parse_i64
metadata_number field key default = elim (field.metadata key) [
  | none ↦ default
  | some s ↦ number_or (parse_i64 s) default
]

module _ {Value : Type 0} (j : Json Value) where
  unfoldable pub pg_type_from_exasol_metadata : Text → Field → Option PgType
  unfolding to_ascii_uppercase decimal_pg_type metadata_number
  pg_type_from_exasol_metadata exasol_type_json field = elim (j.parse exasol_type_json) [
    | none ↦ none
    | some value ↦ elim (member j value (codes "type") (as_str j)) [
      | none ↦ none
      | some given ↦
          let type_name = to_ascii_uppercase given in
          if text_eq type_name (codes "BOOLEAN")
          then some PgType.bool
          else if text_eq type_name (codes "DECIMAL")
          then some (
              decimal_pg_type (metadata_number field (codes "exasol:precision") (pos 36))
                (metadata_number field (codes "exasol:scale") (pos 0)))
          else if text_eq type_name (codes "DOUBLE")
          then some PgType.float8
          else if text_eq type_name (codes "DATE")
          then some PgType.date
          else if text_eq type_name (codes "TIMESTAMP")
          then some (if has_time_zone field.data_type then PgType.timestamptz else PgType.timestamp)
          else if text_eq type_name (codes "CHAR")
              || text_eq type_name (codes "VARCHAR")
              || text_eq type_name (codes "HASHTYPE")
          then some PgType.varchar
          else none
    ]
  ]

  unfoldable pub pg_type_for_arrow_field : Field → PgType
  unfolding pg_type_from_exasol_metadata pg_type_for_arrow_data_type
  pg_type_for_arrow_field field = elim (field.metadata (codes "exasol:type")) [
    | none ↦ pg_type_for_arrow_data_type field.data_type
    | some exasol_type ↦
        number_or (pg_type_from_exasol_metadata exasol_type field)
          (pg_type_for_arrow_data_type field.data_type)
  ]

-- `FieldInfo` of the crate pgwire; every field is sent as text.
pub record FieldInfo : Type 0 where
  pub label : Text
  pub pg_type : PgType

abbrev pub text_field : Text → FieldInfo
text_field label = record { label = label; pg_type = PgType.text }

module _ {Value Schema : Type 0} (j : Json Value) (fields_of : Schema → List Field) where
  unfoldable pub map_exasol_columns : Schema → Bool → List FieldInfo
  unfolding pg_type_for_arrow_field maybe_fold_label
  map_exasol_columns schema fold_labels =
      map
        (λ field. record {
          label = maybe_fold_label field.name fold_labels;
          pg_type = pg_type_for_arrow_field j field;
        })
        (fields_of schema)

module _ {k : Crates} (j : Json k.Value) (r : Regexes) (fields_of : k.Schema → List Field) where
  abbrev pub typed_columns : List (ExasolColumn k) → Bool → List FieldInfo
  typed_columns columns fold_labels =
      map
        (λ column. record {
          label = maybe_fold_label column.name fold_labels;
          pg_type = pg_type_for_exasol_data_type j r column.data_type;
        })
        columns

  -- `GatewayResponse::fields`.
  unfoldable pub fields : GatewayResponse k → List FieldInfo
  unfolding map_exasol_columns
  fields (GatewayResponse.query columns _) = map text_field columns
  fields (GatewayResponse.arrow_query schema _ _ fold_labels) =
      map_exasol_columns j fields_of schema fold_labels
  fields (GatewayResponse.typed_query columns _ _ fold_labels) = typed_columns columns fold_labels
  fields _ = []
