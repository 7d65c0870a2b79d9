-- ===== src/Session/Rows/Widths.antt =====
-- The rows of `query_response` against the fields that are described for them.
use exa_postgres_interface.Base.{
  ℕ, zero, suc, ◌+◌, List, [], ◌∷◌, Option, Result, ok, err, Result-cases, length, inl, inr, ◌≡◌,
  refl, ap, arith,
}
use exa_postgres_interface.Base.Text.{Text}
use exa_postgres_interface.Cursor.{TextRow}
use exa_postgres_interface.Session.Rows.{
  Encoder, cells_from, encode_cells, encode_row, encode_rows, text_response,
}
use exa_postgres_interface.Session.Types.{FieldInfo}

-- What pgwire's encoder documents: a field that is encoded is one more of the row that is begun, and
-- `take_row` gives that row and begins the next.
pub record EncoderLaws (e : Encoder) : Type 0 where
  pub fields_in : e.DataRow → ℕ
  pub begun : e.State → ℕ
  pub new_begun : (schema : List FieldInfo) → begun (e.new schema) ≡ 0
  pub encode_field_begun :
      (s : e.State) (value : Option Text)
      → (e.encode_field s value).1 ≡ ok tt
      → begun (e.encode_field s value).0 ≡ begun s + 1
  pub take_row_begun : (s : e.State) → begun (e.take_row s).0 ≡ 0
  pub take_row_fields : (s : e.State) → fields_in (e.take_row s).1 ≡ begun s

-- Each row has so many fields, up to the first that fails.
abbrev pub IsWide : {DataRow : Type 0} → (DataRow → ℕ) → ℕ → List (Result DataRow) → Type 0
IsWide fields n [] = Unit
IsWide fields n (ok row ∷ rows) = (fields row ≡ n) × IsWide fields n rows
IsWide fields n (err e ∷ rows) = Unit

length-cells_from : (row : TextRow) (idx n : ℕ) → length (cells_from row idx n) ≡ n
length-cells_from row idx zero = refl
length-cells_from row idx (suc n) = ap suc (length-cells_from row (suc idx) n)

module _ (e : Encoder) (laws : EncoderLaws e) where
  encode_cells-begun :
      (s : e.State) (values : List (Option Text))
      → (encode_cells e s values).1 ≡ ok tt
      → laws.begun (encode_cells e s values).0 ≡ laws.begun s + length values
  encode_cells-begun s [] h = omega arith
  encode_cells-begun s (value ∷ values) h = elim (Result-cases (e.encode_field s value).1) [
    | inr (x, f) ↦ let failed : err x ≡ ok tt = rw (f, encode_cells) at h in absurd cc
    | inl (u, f) ↦
        let s' = (e.encode_field s value).0 in
        let others : (encode_cells e s' values).1 ≡ ok tt = rw (f, encode_cells) at h in
        rw (f, encode_cells)
          (omega (arith, encode_cells-begun s' values others, laws.encode_field_begun s value f))
  ]

  encode_rows-IsWide :
      (n : ℕ) (s : e.State) (rows : List TextRow)
      → laws.begun s ≡ 0
      → IsWide laws.fields_in n (encode_rows e n s rows)
  unfolding encode_row
  encode_rows-IsWide n s [] h = tt
  encode_rows-IsWide n s (row ∷ rows) h =
      elim (Result-cases (encode_cells e s (cells_from row 0 n)).1) [
        | inr (x, f) ↦ rw (f, encode_row) tt
        | inl (u, f) ↦
            let s' = (encode_cells e s (cells_from row 0 n)).0 in
            let begun : laws.begun s' ≡ laws.begun s + length (cells_from row 0 n) =
              encode_cells-begun s (cells_from row 0 n) f in
            rw (f, encode_row)
              (
                omega (arith, laws.take_row_fields s', begun, length-cells_from row 0 n),
                encode_rows-IsWide n (e.take_row s').0 rows (laws.take_row_begun s'),
              )
      ]

-- Each row of an answer that is made from rows of text (text_response, behind query_response and
-- query_response_typed) has just as many fields as were described for it, whatever the number of its
-- values, up to the first row that the encoder fails on.
pub text_response-IsWide :
    (e : Encoder) (laws : EncoderLaws e) (schema : List FieldInfo) (rows : List TextRow)
    (tag : Option Text)
    → IsWide laws.fields_in (length schema) (text_response e schema rows tag).rows
unfolding text_response
text_response-IsWide e laws schema rows tag =
    encode_rows-IsWide e laws (length schema) (e.new schema) rows (laws.new_begun schema)
