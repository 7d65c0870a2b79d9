-- ===== src/Exasol/Transposed.antt =====
-- The rows that `transpose_data` of src/exasol/websocket_transport.rs makes of the columns of a JSON result.
use exa_postgres_interface.Base.{
  ℕ, ◌≤◌, ltb, true, false, if◌then◌else◌, [], ◌∷◌, All, ◌⊎◌, List, map, none, some, length,
  get_elem?, ◌≡◌,
}
use exa_postgres_interface.Cursor.{TextRow}
use exa_postgres_interface.Exasol.Json.{Json}
use exa_postgres_interface.Exasol.Transpose.{value_to_text, values_of}

module _ {Value : Type 0} (j : Json Value) where
  -- Some column has so many values.
  abbrev IsReached : List Value → ℕ → Type 0
  IsReached [] n = false ≡ true
  IsReached (column ∷ columns) n = (length (values_of j column) ≡ n) ⊎ IsReached columns n

  -- The rows of columns: all columns fit in, the longest just so, and the row `i` has for each column in
  -- turn the text of its value number `i`, or none where the column is shorter.
  pub record IsTransposed (columns : List Value) (rows : List TextRow) : Type 0 where
    pub fits : All (λ column. length (values_of j column) ≤ length rows) columns
    pub reached : (rows ≡ []) ⊎ IsReached columns (length rows)
    pub cells :
        (i : ℕ)
        → get_elem? rows i ≡ (
            if ltb i (length rows)
            then some (map (λ column. value_to_text j (get_elem? (values_of j column) i)) columns)
            else none)
