-- ===== src/Session/Extended/Parameters.antt =====
-- The types of parameters and the text of a statement with its values: `infer_parameter_types`,
-- `render_portal_parameter` and `render_portal_sql`. What `from_utf8` says of bad bytes is left out of
-- the message of the error.
pub mod Replacing
pub mod Filling
use exa_postgres_interface.Base.{
  ℕ, zero, suc, ◌+◌, ◌^◌, max, any, Bool, true, false, List, [], ◌∷◌, ◌++◌, Option, none, some,
  if◌then◌else◌, Result, ok, err, get_elem?,
}
use exa_postgres_interface.Base.Text.{Text, codes, to_decimal, parse_unsigned, replace}
use exa_postgres_interface.Cursor.{pg_error}
use exa_postgres_interface.Session.Simple.{sql_string_literal}
use exa_postgres_interface.Session.Types.{PgType}
use exa_postgres_interface.Session.Extended.{Decoding, Portal, StoredStatement}
use exa_postgres_interface.Session.Extended.Binary.{render_binary_parameter}

abbrev param_re : Text
param_re = codes "\\$(\\d+)"

-- The largest of the numbers that fit a `usize`.
abbrev max_number : List Text → Option ℕ
max_number [] = none
max_number (t ∷ ts) = elim (parse_unsigned (2 ^ 64) t) [
  | none ↦ max_number ts
  | some n ↦ elim (max_number ts) [ none ↦ some n | some m ↦ some (max n m) ]
]

unfoldable pub max_parameter_index : Decoding → Text → Option ℕ
unfolding parse_unsigned
max_parameter_index d sql = max_number (d.captures_iter param_re sql)

abbrev pub placeholder : ℕ → Text
placeholder n = codes "$" ++ to_decimal n

abbrev id_column : Text
id_column =
    codes
      "(?:oid|objid|classoid|objoid|attnum|attrelid|atttypid|adrelid|adnum|relnamespace|reltype)"

unfoldable pub numeric_patterns : Text → List Text
numeric_patterns escaped =
    (codes "(?i)\\bLIMIT\\s+" ++ escaped ++ codes "\\b")
    ∷ (codes "(?i)\\bOFFSET\\s+" ++ escaped ++ codes "\\b")
    ∷ (codes "(?i)\\b"
        ++ id_column
        ++ codes "\\b\\s*(?:=|<>|!=|<|>|<=|>=)\\s*"
        ++ escaped
        ++ codes "\\b")
    ∷ (codes "(?i)"
        ++ escaped
        ++ codes "\\s*(?:=|<>|!=|<|>|<=|>=)\\s*\\b"
        ++ id_column
        ++ codes "\\b")
    ∷ []

abbrev is_ok_and : Option Bool → Bool
is_ok_and none = false
is_ok_and (some b) = b

unfoldable pub parameter_appears_in_numeric_context : Decoding → Text → ℕ → Bool
unfolding numeric_patterns to_decimal
parameter_appears_in_numeric_context d sql idx =
    any (λ pattern. is_ok_and (d.is_match pattern sql))
      (numeric_patterns (d.escape (placeholder idx)))

-- The types of `n` parameters from number `idx` on.
abbrev pub types_from : Decoding → Text → ℕ → ℕ → List PgType
types_from d sql zero idx = []
types_from d sql (suc n) idx =
    (if parameter_appears_in_numeric_context d sql idx then PgType.int4 else PgType.text)
    ∷ types_from d sql n (suc idx)

unfoldable pub infer_parameter_types : Decoding → Text → List PgType
unfolding max_parameter_index parameter_appears_in_numeric_context
infer_parameter_types d sql = elim (max_parameter_index d sql) [
  | none ↦ []
  | some max_idx ↦ types_from d sql max_idx 1
]

-- The type that the client named, or the inferred one, or text.
unfoldable pub parameter_type : Decoding → StoredStatement → ℕ → PgType
unfolding infer_parameter_types
parameter_type d statement idx =
    let inferred : PgType = elim (get_elem? (infer_parameter_types d statement.statement) idx) [
      | none ↦ PgType.text
      | some pg_type ↦ pg_type
    ] in
    elim (get_elem? statement.parameter_types idx) [
      | none ↦ inferred
      | some named ↦ elim named [ none ↦ inferred | some pg_type ↦ pg_type ]
    ]

unfoldable pub render_portal_parameter : Decoding → Portal → ℕ → Result Text
unfolding to_decimal parameter_type render_binary_parameter sql_string_literal
render_portal_parameter d portal idx = elim (get_elem? portal.parameters idx) [
  | none ↦
      err (pg_error (codes "08P01") (codes "missing portal parameter " ++ to_decimal (idx + 1)))
  | some value ↦ elim value [
    | none ↦ ok (codes "NULL")
    | some bytes ↦ elim (portal.is_binary idx) [
      | true ↦ render_binary_parameter d.from_utf8 bytes (parameter_type d portal.statement idx) idx
      | false ↦ elim (d.from_utf8 bytes) [
        | none ↦ err (pg_error (codes "08P01") (codes "invalid UTF-8 parameter"))
        | some text ↦ ok (sql_string_literal text)
      ]
    ]
  ]
]

-- The loop over the parameters, from the last one to the first; `n` are left.
unfoldable pub render_from : (ℕ → Result Text) → ℕ → Text → Result Text
unfolding replace to_decimal
render_from value zero sql = ok sql
render_from value (suc idx) sql = elim (value idx) [
  | err e ↦ err e
  | ok text ↦ render_from value idx (replace (placeholder (idx + 1)) text sql)
]

unfoldable pub render_portal_sql : Decoding → Portal → Result Text
unfolding render_portal_parameter render_from
render_portal_sql d portal =
    render_from (render_portal_parameter d portal) portal.parameter_len portal.statement.statement
