-- ===== src/Exasol/Arrow.antt =====
-- src/exasol/arrow_transport.rs: the outcome of a statement over the driver exarrow_rs, whose
-- connection is a parameter.
use exa_postgres_interface.Base.{List, [], ◌∷◌, Option, none, some, All, ◌≡◌}
use exa_postgres_interface.Base.Int.{ℤ}
use exa_postgres_interface.Base.Text.{Text}
use exa_postgres_interface.Crates.{Crates}
use exa_postgres_interface.Exasol.{ExasolError, ExasolResult}
use exa_postgres_interface.Exasol.Endpoint.{Checked}
use exa_postgres_interface.Session.{ExasolOutcome}
use exa_postgres_interface.Session.Cursors.{cursor_schema_for}

-- The driver's connection: an answer has a row count, or batches to fetch and, mostly, a schema.
pub record Driver (k : Crates) : Type 1 where
  pub World : Type 0
  pub ResultSet : Type 0
  pub execute : World → Text → World × Checked ResultSet
  pub row_count : ResultSet → Option ℤ
  pub metadata_schema : ResultSet → Option k.Schema
  pub fetch_all : World → ResultSet → World × Checked (List k.RecordBatch)
  pub execute_update : World → Text → World × Checked (Unit {0})
  -- `RecordBatch::new_empty`
  pub new_empty : k.Schema → k.RecordBatch

abbrev execution_error {ℓ} : {A : Type ℓ} → Text → ExasolResult A
execution_error message = ExasolResult.err (ExasolError.execution message)

module _ (k : Crates) where
  unfoldable pub backfill_schema_when_empty :
      (k.Schema → k.RecordBatch) → List k.RecordBatch → Option k.Schema → List k.RecordBatch
  backfill_schema_when_empty new_empty (batch ∷ batches) schema = batch ∷ batches
  backfill_schema_when_empty new_empty [] (some schema) = new_empty schema ∷ []
  backfill_schema_when_empty new_empty [] none = []

  unfoldable pub arrow_execute :
      (d : Driver k) → d.World → Text → d.World × ExasolResult (ExasolOutcome k)
  unfolding backfill_schema_when_empty
  arrow_execute d w sql =
      let (w', executed) = d.execute w sql in
      elim executed [
        | Checked.invalid message ↦ (w', execution_error message)
        | Checked.valid result_set ↦ elim (d.row_count result_set) [
          | some count ↦ (w', ExasolResult.ok (ExasolOutcome.row_count count))
          | none ↦
              let (w'', fetched) = d.fetch_all w' result_set in
              (
                w'',
                elim fetched [
                  | Checked.invalid message ↦ execution_error message
                  | Checked.valid batches ↦ ExasolResult.ok (
                      ExasolOutcome.arrow_rows (
                        backfill_schema_when_empty d.new_empty batches
                          (d.metadata_schema result_set)))
                ],
              )
        ]
      ]

  unfoldable pub arrow_execute_update :
      (d : Driver k) → d.World → Text → d.World × ExasolResult (Unit {0})
  arrow_execute_update d w sql =
      let (w', executed) = d.execute_update w sql in
      (
        w',
        elim executed [
          | Checked.invalid message ↦ execution_error message
          | Checked.valid _ ↦ ExasolResult.ok tt
        ],
      )

-- The schema from which the columns of an answer are described is the one that the driver reports,
-- also for an answer without rows, if its batches have that schema and an empty batch has the one it is
-- made of.
pub cursor_schema_for-backfill_schema_when_empty :
    (k : Crates) (new_empty : k.Schema → k.RecordBatch) (batches : List k.RecordBatch)
    (schema : k.Schema)
    → ((s : k.Schema) → k.schema (new_empty s) ≡ s)
    → All (λ batch. k.schema batch ≡ schema) batches
    → cursor_schema_for k (backfill_schema_when_empty k new_empty batches (some schema)) ≡ schema
unfolding cursor_schema_for backfill_schema_when_empty
cursor_schema_for-backfill_schema_when_empty k new_empty [] schema made same = made schema
cursor_schema_for-backfill_schema_when_empty k new_empty (batch ∷ batches) schema made same = same.0
