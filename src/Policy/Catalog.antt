-- ===== src/Policy/Catalog.antt =====
-- Queries on pg_settings, answered from four rows of the gateway's own.
use exa_postgres_interface.Base.{
  ℕ, ◌+◌, Bool, true, false, not, ◌&&◌, ◌||◌, ◌==◌, if◌then◌else◌, List, [], ◌∷◌, reverse, map,
  Option, none, some, length, take, drop,
}
use exa_postgres_interface.Base.Int.{ℤ, pos, eq_ℤ, ◌+ℤ◌, negsuc}
use exa_postgres_interface.Base.Text.{
  Text, codes, is_empty, trim, trim_while, contains, starts_with, ends_with, text_eq,
  eq_ignore_ascii_case, to_ascii_lowercase, split_once, to_decimal,
}
use exa_postgres_interface.Policy.Plan.{StatementPlan}
use exa_postgres_interface.Policy.Regexes.{Regexes}

pub record CatalogProjection : Type 0 where
  pub source_name : Text
  pub output_name : Text

-- The text between SELECT and the first FROM.
unfoldable pub select_list : Text → Option Text
unfolding to_ascii_lowercase split_once trim
select_list sql =
    let lower = to_ascii_lowercase sql in
    elim (split_once (codes "select") lower) [
      | none ↦ none
      | some (before, behind) ↦ elim (split_once (codes " from ") behind) [
        | none ↦ none
        | some (middle, _) ↦
            let list = trim (take (length middle) (drop (length before + 6) sql)) in
            some (
              if starts_with (to_ascii_lowercase list) (codes "distinct ")
              then trim (drop 8 list)
              else list)
      ]
    ]

-- The loop of `split_select_items`: the items so far and the current one, each backwards, the depth
-- of the parentheses and the flag for single quotes.
abbrev items_from : List Text → Text → ℤ → Bool → Text → List Text
items_from items current depth in_single_quote [] =
    let tail = trim (reverse current) in reverse (if is_empty tail then items else tail ∷ items)
items_from items current depth in_single_quote (ch ∷ s) =
    let cut = ch == b',' && not (ch == b'\'') && not in_single_quote && eq_ℤ depth (pos 0) in
    items_from (if cut then trim (reverse current) ∷ items else items)
      (if cut then [] else ch ∷ current)
      (if ch == b'(' && not in_single_quote
        then depth +ℤ pos 1
        else if ch == b')' && not in_single_quote
        then depth +ℤ negsuc 0
        else depth)
      (if ch == b'\'' then not in_single_quote else in_single_quote) s

unfoldable pub split_select_items : Text → List Text
unfolding trim
split_select_items select_list = items_from [] [] (pos 0) false select_list

abbrev as_re : Text
as_re = codes "(?i)^(.*?)\\s+AS\\s+\"?([A-Za-z_][A-Za-z0-9_]*)\"?$"

unfoldable pub split_alias : Regexes → Text → Text × Option Text
unfolding trim
split_alias r item = elim (r.captures as_re item) [
  | none ↦ (item, none)
  | some group ↦ (trim (elim (group (codes "1")) [ none ↦ item | some m ↦ m ]), group (codes "2"))
]

abbrev is_quote : ℕ → Bool
is_quote c = c == b'"'

-- The text behind the last dot.
abbrev after_dot : Text → Text → Text
after_dot current [] = reverse current
after_dot current (c ∷ s) = after_dot (if c == b'.' then [] else c ∷ current) s

unfoldable pub source_column_name : Text → Text
unfolding trim to_ascii_lowercase contains
source_column_name expr =
    let last =
      to_ascii_lowercase
        (trim_while is_quote (trim (after_dot [] (trim_while is_quote (trim expr))))) in
    if contains last (codes "datname")
    then codes "datname"
    else if contains last (codes "nspname")
    then codes "nspname"
    else if contains last (codes "rolname")
    then codes "rolname"
    else if contains last (codes "current_database") || contains last (codes "current_catalog")
    then codes "datname"
    else last

unfoldable pub projection_from_item : Regexes → Text → CatalogProjection
unfolding split_alias source_column_name
projection_from_item r item =
    let split = split_alias r item in
    let source = source_column_name split.0 in
    record {
      source_name = source;
      output_name = elim split.1 [ none ↦ source | some alias ↦ alias ];
    }

unfoldable pub select_alias : Regexes → Text → Option Text
unfolding select_list split_select_items projection_from_item
select_alias r sql = elim (select_list sql) [
  | none ↦ none
  | some list ↦ elim (split_select_items list) [
    | [] ↦ none
    | item ∷ _ ↦ some ((projection_from_item r item).output_name)
  ]
]

unfoldable pub default_projection : List (Text × Text) → List CatalogProjection
default_projection default_row =
    map (λ entry. record { source_name = entry.0; output_name = entry.0 }) default_row

abbrev is_star : Text → Bool
is_star list = text_eq list (codes "*") || ends_with list (codes ".*")

unfoldable pub catalog_projection : Regexes → Text → List (Text × Text) → List CatalogProjection
unfolding select_list split_select_items projection_from_item default_projection trim
catalog_projection r sql default_row = elim (select_list sql) [
  | none ↦ default_projection default_row
  | some list ↦ elim (is_star (trim list)) [
    | true ↦ default_projection default_row
    | false ↦ map (projection_from_item r) (split_select_items list)
  ]
]

abbrev column : List (Text × Text) → Text → Option Text
column [] name = none
column (entry ∷ row) name =
    if eq_ignore_ascii_case entry.0 name then some entry.1 else column row name

abbrev first_row : List (List (Text × Text)) → List (Text × Text)
first_row [] = []
first_row (row ∷ rows) = row

unfoldable pub catalog_response_many : Regexes → Text → List (List (Text × Text)) → StatementPlan
unfolding to_ascii_lowercase eq_ignore_ascii_case contains select_alias catalog_projection
    to_decimal
catalog_response_many r sql source_rows =
    let projections = catalog_projection r sql (first_row source_rows) in
    if contains (to_ascii_lowercase sql) (codes "count(")
    then StatementPlan.client_select
        (elim (select_alias r sql) [ none ↦ codes "count" | some name ↦ name ] ∷ [])
        ((some (to_decimal (length source_rows)) ∷ []) ∷ [])
    else StatementPlan.client_select (map (λ p. p.output_name) projections)
        (map (λ row. map (λ p. column row p.source_name) projections) source_rows)

abbrev setting : Text → Text → List (Text × Text)
setting name value = (codes "name", name) ∷ (codes "setting", value) ∷ []

unfoldable pub catalog_pg_settings : Regexes → Text → StatementPlan
unfolding catalog_response_many
catalog_pg_settings r sql = catalog_response_many r sql (
    setting (codes "server_version") (codes "16.6-exasol-gateway")
    ∷ setting (codes "client_encoding") (codes "UTF8")
    ∷ setting (codes "standard_conforming_strings") (codes "on")
    ∷ setting (codes "TimeZone") (codes "Etc/UTC")
    ∷ [])
