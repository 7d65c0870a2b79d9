-- ===== src/Session/Catalog/Valid.antt =====
-- The whole of `execute_statement` keeps the cursors valid.
use exa_postgres_interface.Base.{
  ℕ, not, Bool-cases, inl, inr, Option-cases, List, Result, Result-cases, ◌≡◌, refl, sym, subst,
}
use exa_postgres_interface.Base.Text.{Text, codes, eq_ignore_ascii_case}
use exa_postgres_interface.Crates.{Crates}
use exa_postgres_interface.Cursor.{TextRow}
use exa_postgres_interface.Metadata.{MetadataPlan, detect}
use exa_postgres_interface.Policy.Classify.{classify_statement}
use exa_postgres_interface.Policy.Regexes.{Regexes}
use exa_postgres_interface.Session.{Database, Translator, SessionState, Client}
use exa_postgres_interface.Session.Catalog.{
  asked, execute_exasol_query, fetch_query_rows, execute_exasol_sql, metadata_response,
  execute_metadata_query, execute_statement,
}
use exa_postgres_interface.Session.Statements.{execute_classified}
use exa_postgres_interface.Session.Valid.{
  AllValid, Fits, IsValidSession, IsValidAfter, execute_plan-IsValidAfter,
}

module _ {k : Crates} (text_rows : List k.RecordBatch → List TextRow) {db : Database k} where
  asked-Valid {ℓ} :
      {A : Type ℓ} (client : Client db) (f : SessionState db → SessionState db × Result A)
      → ((s : SessionState db) → (f s).0.cursors ≡ s.cursors)
      → IsValidSession client.session
      → IsValidSession ((asked text_rows client f).0).session
  asked-Valid client f same h = elim (Option-cases client.session) [
    | inl e ↦ rw e (subst IsValidSession e h)
    | inr (s, e) ↦ rw e (subst AllValid (sym (same s)) (subst IsValidSession e h))
  ]

  metadata_response-Valid :
      (r : Regexes) (client : Client db) (plan : MetadataPlan)
      → IsValidSession client.session
      → IsValidSession ((metadata_response text_rows r client plan).0).session
  unfolding metadata_response fetch_query_rows execute_exasol_query execute_exasol_sql
  metadata_response-Valid r client MetadataPlan.jdbc_schemas h = asked-Valid client _ (λ s. refl) h
  metadata_response-Valid r client MetadataPlan.pg_namespace h = asked-Valid client _ (λ s. refl) h
  metadata_response-Valid r client (MetadataPlan.jdbc_tables a b) h =
      asked-Valid client _ (λ s. refl) h
  metadata_response-Valid r client (MetadataPlan.jdbc_columns a b c) h =
      asked-Valid client _ (λ s. refl) h
  metadata_response-Valid r client (MetadataPlan.pg_tables a b) h =
      asked-Valid client _ (λ s. refl) h
  metadata_response-Valid r client (MetadataPlan.info_schema_table_names catalog schema) h =
      elim (Bool-cases (not (eq_ignore_ascii_case catalog (codes "exasol")))) [
        | inl other ↦ rw (other, metadata_response) h
        | inr own ↦ rw (own, metadata_response) (asked-Valid client _ (λ s. refl) h)
      ]
  metadata_response-Valid r client (MetadataPlan.info_schema_column_names catalog schema table) h =
      elim (Bool-cases (not (eq_ignore_ascii_case catalog (codes "exasol")))) [
        | inl other ↦ rw (other, metadata_response) h
        | inr own ↦ rw (own, metadata_response) (asked-Valid client _ (λ s. refl) h)
      ]
  metadata_response-Valid r client MetadataPlan.pg_user h = h
  metadata_response-Valid r client MetadataPlan.pg_group h = h
  metadata_response-Valid r client MetadataPlan.pg_stat_activity h = h
  metadata_response-Valid r client MetadataPlan.pg_locks h = h

  execute_metadata_query-Valid :
      (r : Regexes) (client : Client db) (sql : Text)
      → IsValidSession client.session
      → IsValidSession ((execute_metadata_query text_rows r client sql).0).session
  unfolding execute_metadata_query
  execute_metadata_query-Valid r client sql h = elim (Option-cases (detect r sql)) [
    | inl e ↦ rw (e, execute_metadata_query) h
    | inr (plan, e) ↦ rw (e, execute_metadata_query) (metadata_response-Valid r client plan h)
  ]

-- Every statement that the gateway is sent, a catalog query or any other, leaves a session whose
-- cursors are all valid, if they were and no result set of the database has 2^63 - 2 rows or more or
-- a batch of 2^32.
pub execute_statement-IsValidAfter :
    {k : Crates} (text_rows : List k.RecordBatch → List TextRow) {db : Database k} (fuel : ℕ)
    (r : Regexes) (t : Translator) (client : Client db) (sql : Text)
    → Fits db
    → IsValidSession client.session
    → IsValidAfter (execute_statement text_rows fuel r t client sql)
unfolding execute_statement execute_classified
execute_statement-IsValidAfter text_rows fuel r t client sql fits h =
    let v = execute_metadata_query-Valid text_rows r client sql h in
    elim (Result-cases ((execute_metadata_query text_rows r client sql).1)) [
      | inr (x, e) ↦ rw (e, execute_statement) v
      | inl (metadata, e) ↦ elim (Option-cases metadata) [
        | inr (response, f) ↦ rw (e, execute_statement) (rw f v)
        | inl f ↦
            rw (e, execute_statement)
              (rw f (
                execute_plan-IsValidAfter fuel r t
                  ((execute_metadata_query text_rows r client sql).0) sql (classify_statement r sql)
                  fits v))
      ]
    ]
