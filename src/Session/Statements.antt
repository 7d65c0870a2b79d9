-- ===== src/Session/Statements.antt =====
-- `execute_statement` behind the check for metadata queries, and `map_exasol_result`.
use exa_postgres_interface.Base.{
  ℕ, Bool, not, ◌&&◌, if◌then◌else◌, Option, none, some, [], ◌∷◌, ◌++◌, ok, err,
}
use exa_postgres_interface.Base.Int.{ℤ, pos, ltb_ℤ, as_usize}
use exa_postgres_interface.Base.Text.{Text, codes, replace_char, to_decimal}
use exa_postgres_interface.Crates.{Crates}
use exa_postgres_interface.Policy.Plan.{RowCountPolicy, StatementPlan}
use exa_postgres_interface.Policy.Regexes.{Regexes}
use exa_postgres_interface.Policy.Classify.{classify_statement}
use exa_postgres_interface.Session.{
  ExasolOutcome, GatewayResponse, Database, Translator, SessionState, Client, Responses,
}
use exa_postgres_interface.Session.Cursors.{
  cursor_schema_for, refusal, executed, translate_client_sql, on_session, execute_cursor_plan,
  clear_non_hold_cursors,
}

unfoldable pub should_fold_labels : Translator → Text → Bool
should_fold_labels t sql = t.enabled && not (t.is_passthrough_query sql)

abbrev row_count_of : RowCountPolicy → ℤ → Option ℕ
row_count_of RowCountPolicy.include rows =
    some (as_usize (if ltb_ℤ rows (pos 0) then pos 0 else rows))
row_count_of RowCountPolicy.omit rows = none

-- The name of a schema inside double quotes.
unfoldable pub open_schema_sql : Text → Text
unfolding replace_char
open_schema_sql schema =
    codes "OPEN SCHEMA \"" ++ replace_char b'"' (codes "\"\"") schema ++ codes "\""

module _ {k : Crates} where
  unfoldable pub map_exasol_result : ExasolOutcome k → Text → RowCountPolicy → Bool → Responses k
  unfolding cursor_schema_for
  map_exasol_result (ExasolOutcome.arrow_rows batches) command policy fold_labels =
      ok (GatewayResponse.arrow_query (cursor_schema_for k batches) batches none fold_labels ∷ [])
  map_exasol_result (ExasolOutcome.typed_rows columns rows) command policy fold_labels =
      ok (GatewayResponse.typed_query columns rows none fold_labels ∷ [])
  map_exasol_result (ExasolOutcome.row_count rows) command policy fold_labels =
      executed command (row_count_of policy rows)

module _ {k : Crates} {db : Database k} where
  unfoldable pub set_search_path : SessionState db → Text → SessionState db × Responses k
  unfolding open_schema_sql
  set_search_path s schema =
      let (world, answer) = db.execute s.exasol (open_schema_sql schema) in
      elim answer [
        | ok _ ↦
            (record s { exasol = world; current_schema = some schema }, executed (codes "SET") none)
        | err e ↦ (record s { exasol = world }, err e)
      ]

  unfoldable pub show_search_path : SessionState db → SessionState db × Responses k
  show_search_path s =
      let value : Text = elim s.current_schema [ none ↦ codes "public" | some schema ↦ schema ] in
      (s, ok (GatewayResponse.query (codes "search_path" ∷ []) ((some value ∷ []) ∷ []) ∷ []))

  unfoldable pub execute_in :
      Translator → SessionState db → Text → Text → RowCountPolicy → SessionState db × Responses k
  unfolding translate_client_sql map_exasol_result should_fold_labels
  execute_in t s sql command policy = elim (translate_client_sql t sql) [
    | err e ↦ (s, err e)
    | ok translated ↦
        let (world, answer) = db.execute s.exasol translated in
        (
          record s { exasol = world },
          elim answer [
            | err e ↦ err e
            | ok outcome ↦ map_exasol_result outcome command policy (should_fold_labels t sql)
          ],
        )
  ]

  -- The `match` on the plan of a statement.
  unfoldable pub execute_plan :
      ℕ → Regexes → Translator → Client db → Text → StatementPlan → Option (Client db × Responses k)
  unfolding set_search_path show_search_path execute_in execute_cursor_plan clear_non_hold_cursors
      to_decimal
  execute_plan fuel r t client sql StatementPlan.empty =
      some (client, ok (GatewayResponse.empty ∷ []))
  execute_plan fuel r t client sql StatementPlan.client_set =
      some (client, executed (codes "SET") none)
  execute_plan fuel r t client sql (StatementPlan.set_search_path schema) =
      on_session client (λ s. some (set_search_path s schema))
  execute_plan fuel r t client sql StatementPlan.show_search_path =
      on_session client (λ s. some (show_search_path s))
  execute_plan fuel r t client sql StatementPlan.client_transaction_start =
      some (client, ok (GatewayResponse.transaction_start (codes "BEGIN") ∷ []))
  execute_plan fuel r t client sql (StatementPlan.client_transaction_end command) =
      some (clear_non_hold_cursors client, ok (GatewayResponse.transaction_end command ∷ []))
  execute_plan fuel r t client sql (StatementPlan.client_show name value) =
      some (client, ok (GatewayResponse.query (name ∷ []) ((some value ∷ []) ∷ []) ∷ []))
  execute_plan fuel r t client sql (StatementPlan.client_select columns rows) =
      some (client, ok (GatewayResponse.query columns rows ∷ []))
  execute_plan fuel r t client sql (StatementPlan.backend_pid column) = some (
    client,
    ok (GatewayResponse.query (column ∷ []) ((some (to_decimal client.pid) ∷ []) ∷ []) ∷ []),
  )
  execute_plan fuel r t client sql (StatementPlan.cursor plan) =
      execute_cursor_plan fuel r t client plan
  execute_plan fuel r t client sql (StatementPlan.reject sqlstate message) =
      some (client, refusal sqlstate message)
  execute_plan fuel r t client sql (StatementPlan.execute command policy) =
      on_session client (λ s. some (execute_in t s sql command policy))

  unfoldable pub execute_classified :
      ℕ → Regexes → Translator → Client db → Text → Option (Client db × Responses k)
  unfolding classify_statement execute_plan
  execute_classified fuel r t client sql =
      execute_plan fuel r t client sql (classify_statement r sql)
