-- ===== src/Session/Catalog.antt =====
-- `execute_metadata_query` and `execute_statement`: the catalog queries of drivers that the gateway
-- answers itself, before it looks at the class of a statement.
pub mod Queries
pub mod Valid
pub mod Single
pub mod Schemas
use exa_postgres_interface.Base.{
  ℕ, zero, suc, ◌+◌, Bool, true, false, not, ◌&&◌, ◌||◌, ◌==◌, ltb, List, [], ◌∷◌, ◌++◌, map,
  Option, none, some, if◌then◌else◌, Result, ok, err, get_elem?,
}
use exa_postgres_interface.Base.Sort.{sort}
use exa_postgres_interface.Base.Text.{
  Text, codes, text_eq, eq_ignore_ascii_case, to_decimal, show_ℤ, split_whitespace,
}
use exa_postgres_interface.Crates.{Crates}
use exa_postgres_interface.Cursor.{TextRow, pg_error}
use exa_postgres_interface.Exasol.Endpoint.{Checked}
use exa_postgres_interface.Metadata.{MetadataPlan, detect, unwrap_or}
use exa_postgres_interface.Metadata.Types.{wrap_i32, PgTypeInfo, map_exasol_column_type}
use exa_postgres_interface.Policy.Plan.{RowCountPolicy}
use exa_postgres_interface.Policy.Regexes.{Regexes}
use exa_postgres_interface.Session.{
  ExasolOutcome, GatewayResponse, Database, Translator, SessionState, Client, Responses,
  not_connected,
}
use exa_postgres_interface.Session.Catalog.Queries.{
  schemas_sql, jdbc_tables_sql, jdbc_columns_sql, pg_tables_sql, info_schema_table_names_sql,
  info_schema_column_names_sql, table_filter_sql,
}
use exa_postgres_interface.Session.Statements.{map_exasol_result, execute_classified}
use Prim.Native.String.{String}

-- The derived order of text rows: a text by its characters, a missing value first, a row by its
-- values.
abbrev pub leb_text : Text → Text → Bool
leb_text [] t = true
leb_text (c ∷ s) [] = false
leb_text (c ∷ s) (d ∷ t) = ltb c d || (c == d && leb_text s t)

abbrev pub leb_cell : Option Text → Option Text → Bool
leb_cell none v = true
leb_cell (some s) none = false
leb_cell (some s) (some t) = leb_text s t

abbrev eq_cell : Option Text → Option Text → Bool
eq_cell none none = true
eq_cell none (some t) = false
eq_cell (some s) none = false
eq_cell (some s) (some t) = text_eq s t

abbrev pub leb_row : TextRow → TextRow → Bool
leb_row [] t = true
leb_row (v ∷ s) [] = false
leb_row (v ∷ s) (w ∷ t) = let rest = leb_row s t in if eq_cell v w then rest else leb_cell v w

-- `row.get(i).cloned().unwrap_or(default)`
abbrev pub cell : TextRow → ℕ → Option Text → Option Text
cell row i default = elim (get_elem? row i) [ none ↦ default | some v ↦ v ]

-- The schemas of the database and the two that the gateway adds, in order.
unfoldable pub all_schemas : List TextRow → List TextRow
unfolding sort
all_schemas schemas =
    sort leb_row
      (schemas ++ (some (codes "information_schema") ∷ []) ∷ (some (codes "pg_catalog") ∷ []) ∷ [])

unfoldable pub jdbc_schema_row : TextRow → TextRow
jdbc_schema_row row = cell row 0 none ∷ some (codes "exasol") ∷ []

-- `2200 + idx as i32` wraps around at 2^31.
unfoldable pub namespace_rows : ℕ → List TextRow → List TextRow
unfolding show_ℤ wrap_i32
namespace_rows idx [] = []
namespace_rows idx (row ∷ rows) =
    (some (show_ℤ (wrap_i32 (2200 + idx))) ∷ cell row 0 none ∷ some (codes "10") ∷ none ∷ [])
    ∷ namespace_rows (suc idx) rows

abbrev is_false : Option Text → Bool
is_false none = false
is_false (some s) = text_eq s (codes "false")

unfoldable pub column_row : Regexes → TextRow → TextRow
unfolding map_exasol_column_type show_ℤ
column_row r row =
    let exa_type = unwrap_or (cell row 3 none) (codes "VARCHAR(2000) UTF8") in
    let type_info = map_exasol_column_type r exa_type in
    some (codes "exasol")
    ∷ cell row 0 none
    ∷ cell row 1 none
    ∷ cell row 2 none
    ∷ some (to_decimal type_info.oid)
    ∷ some (if is_false (cell row 4 none) then codes "true" else codes "false")
    ∷ some (show_ℤ type_info.typmod)
    ∷ some (show_ℤ type_info.typlen)
    ∷ some (show_ℤ type_info.typmod)
    ∷ cell row 7 (some (codes "0"))
    ∷ none
    ∷ none
    ∷ cell row 5 none
    ∷ cell row 6 none
    ∷ some (to_decimal type_info.typbasetype)
    ∷ some type_info.typtype
    ∷ []

-- The names of columns, here parted by blanks.
abbrev names : String → List Text
names s = split_whitespace (codes s)

abbrev pub column_columns : List Text
column_columns =
    names
      "current_database nspname relname attname atttypid attnotnull atttypmod attlen typtypmod attnum attidentity attgenerated adsrc description typbasetype typtype"

abbrev user_columns : List Text
user_columns =
    names "usename usesysid usecreatedb usesuper userepl usebypassrls passwd valuntil useconfig"

abbrev user_row : TextRow
user_row =
    some (codes "sys")
    ∷ some (codes "10")
    ∷ some (codes "true")
    ∷ some (codes "true")
    ∷ some (codes "false")
    ∷ some (codes "true")
    ∷ none
    ∷ none
    ∷ none
    ∷ []

abbrev group_columns : List Text
group_columns = names "groname grosysid grolist"

abbrev activity_columns : List Text
activity_columns =
    names
      "datid datname pid leader_pid usesysid usename application_name client_addr client_hostname client_port backend_start xact_start query_start state_change wait_event_type wait_event state backend_xid backend_xmin query_id query backend_type"

abbrev lock_columns : List Text
lock_columns =
    names
      "locktype database relation page tuple virtualxid transactionid classid objid objsubid virtualtransaction pid mode granted fastpath waitstart"

abbrev map_ok {ℓ κ} : {A : Type ℓ} {B : Type κ} → (A → B) → Result A → Result B
map_ok f (ok a) = ok (f a)
map_ok f (err e) = err e

module _ {k : Crates} where
  unfoldable pub empty_query : List Text → GatewayResponse k
  empty_query columns = GatewayResponse.query columns []

  abbrev last_or_empty : List (GatewayResponse k) → GatewayResponse k
  last_or_empty [] = GatewayResponse.empty
  last_or_empty (response ∷ []) = response
  last_or_empty (_ ∷ response ∷ rest) = last_or_empty (response ∷ rest)

module _ {k : Crates} {db : Database k} where
  -- `execute_exasol_sql`: a statement for the database as it stands.
  unfoldable pub execute_exasol_sql :
      SessionState db → Text → SessionState db × Result (ExasolOutcome k)
  execute_exasol_sql s sql =
      let (world, outcome) = db.execute s.exasol sql in (record s { exasol = world }, outcome)

  unfoldable pub execute_exasol_query :
      SessionState db → Text → SessionState db × Result (GatewayResponse k)
  unfolding execute_exasol_sql map_exasol_result
  execute_exasol_query s sql =
      let (s', answer) = execute_exasol_sql s sql in
      (
        s',
        elim answer [
          | err e ↦ err e
          | ok outcome ↦
              map_ok last_or_empty
                (map_exasol_result outcome (codes "SELECT") RowCountPolicy.omit false)
        ],
      )

module _ {k : Crates} (text_rows : List k.RecordBatch → List TextRow) where
  unfoldable pub outcome_rows : ExasolOutcome k → Result (List TextRow)
  outcome_rows (ExasolOutcome.arrow_rows batches) = ok (text_rows batches)
  outcome_rows (ExasolOutcome.typed_rows _ rows) = ok rows
  outcome_rows (ExasolOutcome.row_count _) =
      err (pg_error (codes "XX000") (codes "metadata query unexpectedly returned a row count"))

  module _ {db : Database k} where
    unfoldable pub fetch_query_rows :
        SessionState db → Text → SessionState db × Result (List TextRow)
    unfolding execute_exasol_sql outcome_rows
    fetch_query_rows s sql =
        let (s', answer) = execute_exasol_sql s sql in
        (s', elim answer [ err e ↦ err e | ok outcome ↦ outcome_rows outcome ])

    -- A question to the database, for a client who may not be logged in.
    abbrev pub asked {ℓ} :
        {A : Type ℓ}
        → Client db
        → (SessionState db → SessionState db × Result A)
        → Client db × Result A
    asked client f = elim client.session [
      | none ↦ (client, err not_connected)
      | some s ↦ let (s', answer) = f s in (record client { session = some s' }, answer)
    ]

    abbrev asked_rows :
        Client db
        → Text
        → (List TextRow → GatewayResponse k)
        → Client db × Result (GatewayResponse k)
    asked_rows client sql f =
        asked client (λ s. let (s', answer) = fetch_query_rows s sql in (s', map_ok f answer))

    abbrev asked_query : Client db → Text → Client db × Result (GatewayResponse k)
    asked_query client sql = asked client (λ s. execute_exasol_query s sql)

    -- The `match` on the plan.
    unfoldable pub metadata_response :
        Regexes → Client db → MetadataPlan → Client db × Result (GatewayResponse k)
    unfolding fetch_query_rows execute_exasol_query all_schemas jdbc_schema_row namespace_rows
        column_row jdbc_tables_sql jdbc_columns_sql pg_tables_sql info_schema_table_names_sql
        info_schema_column_names_sql table_filter_sql empty_query eq_ignore_ascii_case
    metadata_response r client MetadataPlan.jdbc_schemas = asked_rows client schemas_sql (λ schemas.
        GatewayResponse.query (names "TABLE_SCHEM TABLE_CATALOG")
          (map jdbc_schema_row (all_schemas schemas)))
    metadata_response r client MetadataPlan.pg_namespace = asked_rows client schemas_sql (λ schemas.
        GatewayResponse.query (names "oid nspname nspowner nspacl")
          (namespace_rows 0 (all_schemas schemas)))
    metadata_response r client (MetadataPlan.jdbc_tables schema_pattern table_pattern) =
        asked_query client (jdbc_tables_sql schema_pattern table_pattern)
    metadata_response r client
          (MetadataPlan.jdbc_columns schema_pattern table_pattern column_pattern) =
        asked_rows client (jdbc_columns_sql schema_pattern table_pattern column_pattern)
          (λ rows. GatewayResponse.query column_columns (map (column_row r) rows))
    metadata_response r client (MetadataPlan.pg_tables schema_exclude table_name) =
        asked_query client (
          pg_tables_sql (unwrap_or schema_exclude (codes "pg_catalog"))
            (table_filter_sql table_name))
    metadata_response r client (MetadataPlan.info_schema_table_names catalog schema) =
        elim (not (eq_ignore_ascii_case catalog (codes "exasol"))) [
          | true ↦ (client, ok (empty_query (names "TABLE_NAME")))
          | false ↦ asked_query client (info_schema_table_names_sql schema)
        ]
    metadata_response r client (MetadataPlan.info_schema_column_names catalog schema table) =
        elim (not (eq_ignore_ascii_case catalog (codes "exasol"))) [
          | true ↦ (client, ok (empty_query (names "COLUMN_NAME")))
          | false ↦ asked_query client (info_schema_column_names_sql schema table)
        ]
    metadata_response r client MetadataPlan.pg_user =
        (client, ok (GatewayResponse.query user_columns (user_row ∷ [])))
    metadata_response r client MetadataPlan.pg_group = (client, ok (empty_query group_columns))
    metadata_response r client MetadataPlan.pg_stat_activity =
        (client, ok (empty_query activity_columns))
    metadata_response r client MetadataPlan.pg_locks = (client, ok (empty_query lock_columns))

    unfoldable pub execute_metadata_query :
        Regexes → Client db → Text → Client db × Result (Option (GatewayResponse k))
    unfolding detect metadata_response
    execute_metadata_query r client sql = elim (detect r sql) [
      | none ↦ (client, ok none)
      | some plan ↦
          let (client', answer) = metadata_response r client plan in (client', map_ok some answer)
    ]

    -- The catalog queries come first, then the plan of the statement.
    unfoldable pub execute_statement :
        ℕ → Regexes → Translator → Client db → Text → Option (Client db × Responses k)
    unfolding execute_metadata_query execute_classified
    execute_statement fuel r t client sql =
        let (client', answer) = execute_metadata_query r client sql in
        elim answer [
          | err e ↦ some (client', err e)
          | ok metadata ↦ elim metadata [
            | some response ↦ some (client', ok (response ∷ []))
            | none ↦ execute_classified fuel r t client' sql
          ]
        ]
