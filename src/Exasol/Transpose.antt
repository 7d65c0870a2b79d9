-- ===== src/Exasol/Transpose.antt =====
-- `transpose_data` and `value_to_text`: the columns of a JSON result become rows of text.
use exa_postgres_interface.Base.{
  ℕ, zero, suc, max, if◌then◌else◌, List, [], ◌∷◌, map, Option, none, some, length, get_elem?,
}
use exa_postgres_interface.Base.Text.{Text, codes}
use exa_postgres_interface.Cursor.{TextRow}
use exa_postgres_interface.Exasol.Json.{Json, Kind, as_array}

module _ {Value : Type 0} (j : Json Value) where
  unfoldable pub value_to_text : Option Value → Option Text
  value_to_text none = none
  value_to_text (some v) = elim (j.kind v) [
    | Kind.null ↦ none
    | Kind.boolean b ↦ some (if b then codes "t" else codes "f")
    | Kind.number n ↦ some n
    | Kind.string s ↦ some s
    | Kind.array vs ↦ some (j.render v)
    | Kind.object ↦ some (j.render v)
  ]

  -- The values of a column; a column that is no array has none.
  abbrev pub values_of : Value → List Value
  values_of column = elim (as_array j column) [ none ↦ [] | some values ↦ values ]

  unfoldable pub row_count : List Value → ℕ
  row_count [] = 0
  row_count (column ∷ columns) = max (length (values_of column)) (row_count columns)

  unfoldable pub row_at : List Value → ℕ → TextRow
  unfolding value_to_text
  row_at columns row_idx =
      map (λ column. value_to_text (get_elem? (values_of column) row_idx)) columns

  abbrev pub rows_from : List Value → ℕ → ℕ → List TextRow
  rows_from columns row_idx zero = []
  rows_from columns row_idx (suc n) = row_at columns row_idx ∷ rows_from columns (suc row_idx) n

  unfoldable pub transpose_data : Option Value → List TextRow
  unfolding row_count row_at
  transpose_data none = []
  transpose_data (some v) = elim (as_array j v) [
    | none ↦ []
    | some columns ↦ rows_from columns 0 (row_count columns)
  ]
