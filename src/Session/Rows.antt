-- ===== src/Session/Rows.antt =====
-- The rows of an answer: `query_response`, `query_response_typed` and `query_response_arrow` with the
-- row encoder of pgwire, and Arrow batches as text.
pub mod Encoded
pub mod Widths
use exa_postgres_interface.Base.{
  ℕ, zero, suc, ◌+◌, ◌-◌, ◌==◌, Bool, true, false, List, [], ◌∷◌, ◌++◌, map, Option, none, some,
  if◌then◌else◌, Result, ok, err, PgError, length, get_elem?,
}
use exa_postgres_interface.Base.Text.{Text, codes}
use exa_postgres_interface.Crates.{Crates}
use exa_postgres_interface.Cursor.{TextRow, ExasolColumn, pg_error}
use exa_postgres_interface.Exasol.Endpoint.{Checked}
use exa_postgres_interface.Exasol.Json.{Json}
use exa_postgres_interface.Policy.Regexes.{Regexes}
use exa_postgres_interface.Session.{GatewayResponse}
use exa_postgres_interface.Session.Types.{FieldInfo}

-- `DataRowEncoder` of the crate pgwire.
pub record Encoder : Type 1 where
  pub State : Type 0
  pub DataRow : Type 0
  pub new : List FieldInfo → State
  pub encode_field : State → Option Text → State × Result (Unit {0})
  pub take_row : State → State × DataRow

-- What the crate arrow says of a batch: its columns, the nulls in them, and a formatter of a column,
-- which may fail, as may the text of a value.
pub record Columns (k : Crates) : Type 1 where
  pub Column : Type 0
  pub columns : k.RecordBatch → List Column
  pub is_null : Column → ℕ → Bool
  pub formatter : Column → Checked (ℕ → Checked Text)

-- The stream of rows is a list, whose rows the client takes one after the other.
pub record QueryResponse (DataRow : Type 0) : Type 0 where
  pub schema : List FieldInfo
  pub rows : List (Result DataRow)
  pub command_tag : Option Text

abbrev pub cells_from : TextRow → ℕ → ℕ → List (Option Text)
cells_from row idx zero = []
cells_from row idx (suc n) =
    (elim (get_elem? row idx) [ none ↦ none | some value ↦ value ]) ∷ cells_from row (suc idx) n

module _ (e : Encoder) where
  abbrev pub encode_cells : e.State → List (Option Text) → e.State × Result (Unit {0})
  encode_cells s [] = (s, ok tt)
  encode_cells s (value ∷ values) =
      let (s', answer) = e.encode_field s value in
      elim answer [ err x ↦ (s', err x) | ok _ ↦ encode_cells s' values ]

  -- The values of a row under so many columns; a row that is too short has nulls at its end.
  unfoldable pub encode_row : ℕ → e.State → TextRow → e.State × Result e.DataRow
  encode_row column_count s row =
      let (s', answer) = encode_cells s (cells_from row 0 column_count) in
      elim answer [
        | err x ↦ (s', err x)
        | ok _ ↦ let (s'', encoded) = e.take_row s' in (s'', ok encoded)
      ]

  abbrev pub encode_rows : ℕ → e.State → List TextRow → List (Result e.DataRow)
  encode_rows column_count s [] = []
  encode_rows column_count s (row ∷ rows) =
      let (s', encoded) = encode_row column_count s row in
      encoded ∷ encode_rows column_count s' rows

  -- `query_response` and `query_response_typed`, which differ in their fields and in the tag.
  unfoldable pub text_response :
      List FieldInfo → List TextRow → Option Text → QueryResponse e.DataRow
  unfolding encode_row
  text_response schema rows command_tag = record {
    schema = schema;
    rows = encode_rows (length schema) (e.new schema) rows;
    command_tag = command_tag;
  }

abbrev collect_checked {ℓ} : {A : Type ℓ} → List (Checked A) → Checked (List A)
collect_checked [] = Checked.valid []
collect_checked (Checked.invalid message ∷ rest) = Checked.invalid message
collect_checked (Checked.valid a ∷ rest) = elim (collect_checked rest) [
  | Checked.invalid message ↦ Checked.invalid message
  | Checked.valid more ↦ Checked.valid (a ∷ more)
]

module _ {k : Crates} (c : Columns k) where
  abbrev pub formatters : k.RecordBatch → Checked (List (ℕ → Checked Text))
  formatters batch = collect_checked (map c.formatter (c.columns batch))

  -- The values of a row, column by column, with its formatters, of which there are as many.
  abbrev pub row_values : List c.Column → List (ℕ → Checked Text) → ℕ → List (Checked (Option Text))
  row_values [] fs row_idx = []
  row_values (col ∷ cols) [] row_idx = []
  row_values (col ∷ cols) (f ∷ fs) row_idx =
      (elim (c.is_null col row_idx) [
        | true ↦ Checked.valid none
        | false ↦ elim (f row_idx) [
          | Checked.invalid message ↦ Checked.invalid message
          | Checked.valid text ↦ Checked.valid (some text)
        ]
      ])
      ∷ row_values cols fs row_idx

  module _ (e : Encoder) where
    abbrev encode_values : e.State → List (Checked (Option Text)) → e.State × Result e.DataRow
    encode_values s [] = let (s', encoded) = e.take_row s in (s', ok encoded)
    encode_values s (Checked.invalid message ∷ values) =
        (s, err (pg_error (codes "XX000") (codes "failed to render Arrow result row: " ++ message)))
    encode_values s (Checked.valid value ∷ values) =
        let (s', answer) = e.encode_field s value in
        elim answer [ err x ↦ (s', err x) | ok _ ↦ encode_values s' values ]

    unfoldable pub encode_one_row :
        k.RecordBatch → List (ℕ → Checked Text) → ℕ → e.State → e.State × Result e.DataRow
    encode_one_row batch fs row_idx s = encode_values s (row_values (c.columns batch) fs row_idx)

    -- The rows from `row_idx` on; `n` are left.
    abbrev pub encode_rows_from :
        k.RecordBatch
        → List (ℕ → Checked Text)
        → ℕ
        → ℕ
        → e.State
        → e.State × List (Result e.DataRow)
    encode_rows_from batch fs row_idx zero s = (s, [])
    encode_rows_from batch fs row_idx (suc n) s =
        let (s', encoded) = encode_one_row batch fs row_idx s in
        let (s'', rows) = encode_rows_from batch fs (suc row_idx) n s' in (s'', encoded ∷ rows)

    unfoldable pub encode_batch_rows : k.RecordBatch → e.State → e.State × List (Result e.DataRow)
    unfolding encode_one_row
    encode_batch_rows batch s = elim (k.num_rows batch == 0) [
      | true ↦ (s, [])
      | false ↦ elim (formatters batch) [
        | Checked.invalid message ↦ (
          s,
          err (pg_error (codes "XX000") (codes "failed to build Arrow formatters: " ++ message))
              ∷ [],
        )
        | Checked.valid fs ↦ encode_rows_from batch fs 0 (k.num_rows batch) s
      ]
    ]

    abbrev pub encode_batches : List k.RecordBatch → e.State → List (Result e.DataRow)
    encode_batches [] s = []
    encode_batches (batch ∷ batches) s =
        let (s', rows) = encode_batch_rows batch s in rows ++ encode_batches batches s'

    unfoldable pub query_response_arrow :
        List FieldInfo → List k.RecordBatch → Option Text → QueryResponse e.DataRow
    unfolding encode_batch_rows
    query_response_arrow schema batches command_tag = record {
      schema = schema;
      rows = encode_batches batches (e.new schema);
      command_tag = command_tag;
    }

  abbrev pub text_rows_from :
      k.RecordBatch → List (ℕ → Checked Text) → ℕ → ℕ → List (Checked TextRow)
  text_rows_from batch fs row_idx zero = []
  text_rows_from batch fs row_idx (suc n) =
      collect_checked (row_values (c.columns batch) fs row_idx)
      ∷ text_rows_from batch fs (suc row_idx) n

  abbrev pub batch_text_rows : k.RecordBatch → Checked (List TextRow)
  batch_text_rows batch = elim (k.num_rows batch == 0) [
    | true ↦ Checked.valid []
    | false ↦ elim (formatters batch) [
      | Checked.invalid message ↦ Checked.invalid message
      | Checked.valid fs ↦ collect_checked (text_rows_from batch fs 0 (k.num_rows batch))
    ]
  ]

  unfoldable pub render_arrow_batches_as_strings : List k.RecordBatch → Checked (List TextRow)
  render_arrow_batches_as_strings [] = Checked.valid []
  render_arrow_batches_as_strings (batch ∷ batches) = elim (batch_text_rows batch) [
    | Checked.invalid message ↦ Checked.invalid message
    | Checked.valid rows ↦ elim (render_arrow_batches_as_strings batches) [
      | Checked.invalid message ↦ Checked.invalid message
      | Checked.valid more ↦ Checked.valid (rows ++ more)
    ]
  ]

  -- A batch that cannot be rendered leaves no rows at all.
  unfoldable pub arrow_batches_to_text_rows : List k.RecordBatch → List TextRow
  unfolding render_arrow_batches_as_strings
  arrow_batches_to_text_rows batches = elim (render_arrow_batches_as_strings batches) [
    | Checked.invalid _ ↦ []
    | Checked.valid rows ↦ rows
  ]
