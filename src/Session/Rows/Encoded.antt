-- ===== src/Session/Rows/Encoded.antt =====
-- The number of rows of an answer.
use exa_postgres_interface.Base.{
  ℕ, zero, suc, ◌==◌, ==_iff, Bool-cases, inl, inr, List, [], ◌∷◌, Option, All, length,
  length-append, ◌≡◌, refl, ap, ◌∙◌, arith,
}
use exa_postgres_interface.Batches.{total_rows}
use exa_postgres_interface.Base.Text.{Text}
use exa_postgres_interface.Crates.{Crates}
use exa_postgres_interface.Exasol.Endpoint.{Checked}
use exa_postgres_interface.Session.Types.{FieldInfo}
use exa_postgres_interface.Session.Rows.{
  Encoder, Columns, formatters, encode_rows_from, encode_batch_rows, encode_batches,
  query_response_arrow,
}

module _ {k : Crates} (c : Columns k) (e : Encoder) where
  length-encode_rows_from :
      (batch : k.RecordBatch) (fs : List (ℕ → Checked Text)) (row_idx n : ℕ) (s : e.State)
      → length ((encode_rows_from c e batch fs row_idx n s).1) ≡ n
  length-encode_rows_from batch fs row_idx zero s = refl
  length-encode_rows_from batch fs row_idx (suc n) s =
      ap suc (length-encode_rows_from batch fs (suc row_idx) n _)

  -- Every column of the batch has a formatter.
  abbrev pub IsFormatted : k.RecordBatch → Type 0
  IsFormatted batch = (fs : List (ℕ → Checked Text)) × (formatters c batch ≡ Checked.valid fs)

  length-encode_batch_rows :
      (batch : k.RecordBatch) (s : e.State)
      → IsFormatted batch
      → length ((encode_batch_rows c e batch s).1) ≡ k.num_rows batch
  unfolding encode_batch_rows
  length-encode_batch_rows batch s (fs, h) = elim (Bool-cases (k.num_rows batch == 0)) [
    | inl empty ↦
        rw (empty, encode_batch_rows) (ground (arith, (==_iff (k.num_rows batch) 0).0 empty))
    | inr filled ↦
        rw (filled, encode_batch_rows)
          (rw h (length-encode_rows_from batch fs 0 (k.num_rows batch) s))
  ]

  length-encode_batches :
      (batches : List k.RecordBatch) (s : e.State)
      → All IsFormatted batches
      → length (encode_batches c e batches s) ≡ total_rows k batches
  length-encode_batches [] s h = refl
  length-encode_batches (batch ∷ batches) s (h, hs) =
      let (s', rows) = encode_batch_rows c e batch s in
      length-append ((encode_batch_rows c e batch s).1) _
      ∙ omega (
        arith,
        length-encode_batch_rows batch s h,
        length-encode_batches batches ((encode_batch_rows c e batch s).0) hs,
      )

-- The answer made from Arrow batches has a row, or the error of a row, for each row of the batches,
-- whatever the encoder does, if the columns of the batches have formatters.
pub query_response_arrow-total_rows :
    {k : Crates} (c : Columns k) (e : Encoder) (schema : List FieldInfo)
    (batches : List k.RecordBatch) (command_tag : Option Text)
    → All (IsFormatted c e) batches
    → length ((query_response_arrow c e schema batches command_tag).rows) ≡ total_rows k batches
unfolding query_response_arrow
query_response_arrow-total_rows c e schema batches command_tag h =
    length-encode_batches c e batches (e.new schema) h
