-- ===== src/Session/Cursors.antt =====
-- The SQL cursors of a session: `declare_cursor`, `fetch_cursor`, `move_cursor`, `close_cursor` and
-- `clear_non_hold_cursors`.
use exa_postgres_interface.Base.{
  ℕ, Bool, true, false, if◌then◌else◌, Option, none, some, List, [], ◌∷◌, ◌++◌, Result, ok, err,
}
use exa_postgres_interface.Base.Int.{negsuc}
use exa_postgres_interface.Base.Maps.{Map, new, insert, remove, retain}
use exa_postgres_interface.Base.Text.{Text, codes, is_some}
use exa_postgres_interface.Crates.{Crates}
use exa_postgres_interface.Policy.Plan.{CursorDeclare, CursorPosition, CursorClose, CursorPlan}
use exa_postgres_interface.Policy.Regexes.{Regexes}
use exa_postgres_interface.Policy.Classify.{classify_statement, is_cursor_unsafe_query}
use exa_postgres_interface.Cursor.{
  CursorData, CursorStepRows, CursorMetadata, GatewayCursor, CursorStep, metadata, pg_error,
}
use exa_postgres_interface.Cursor.Apply.{apply}
use exa_postgres_interface.Session.{
  ExasolOutcome, GatewayResponse, Database, Translator, SessionState, Client, Responses,
  not_connected,
}

abbrev pub cursor_message : Text → Text → Text
cursor_message name what = codes "cursor \"" ++ name ++ codes "\"" ++ what

unfoldable pub cursor_schema_for : (k : Crates) → List k.RecordBatch → k.Schema
cursor_schema_for k [] = k.empty_schema
cursor_schema_for k (batch ∷ _) = k.schema batch

unfoldable pub translate_client_sql : Translator → Text → Result Text
translate_client_sql t sql = if t.enabled then t.translate_postgres_to_exasol sql else ok sql

module _ {k : Crates} where
  abbrev pub refusal : Text → Text → Responses k
  refusal sqlstate message = ok (GatewayResponse.error sqlstate message ∷ [])

  abbrev pub executed : Text → Option ℕ → Responses k
  executed command rows = ok (GatewayResponse.execution command rows ∷ [])

  unfoldable pub outcome_data : ExasolOutcome k → Option (CursorData k)
  unfolding cursor_schema_for
  outcome_data (ExasolOutcome.arrow_rows batches) =
      some (CursorData.arrow (cursor_schema_for k batches) batches)
  outcome_data (ExasolOutcome.typed_rows columns rows) = some (CursorData.typed columns rows)
  outcome_data (ExasolOutcome.row_count _) = none

  -- The answer to a FETCH: the rows under the columns of the result set.
  unfoldable pub fetch_response : CursorMetadata k → CursorStepRows k → Responses k
  fetch_response (CursorMetadata.arrow schema) (CursorStepRows.arrow batches) =
      ok (GatewayResponse.arrow_query schema batches (some (codes "FETCH")) false ∷ [])
  fetch_response (CursorMetadata.typed columns) (CursorStepRows.typed rows) =
      ok (GatewayResponse.typed_query columns rows (some (codes "FETCH")) false ∷ [])
  fetch_response (CursorMetadata.arrow schema) (CursorStepRows.typed rows) = err (
      pg_error (codes "XX000")
        (codes "cursor data and step variant mismatch (internal invariant violation)"))
  fetch_response (CursorMetadata.typed columns) (CursorStepRows.arrow batches) = err (
      pg_error (codes "XX000")
        (codes "cursor data and step variant mismatch (internal invariant violation)"))

  module _ {db : Database k} where
    abbrev pub with_cursors : SessionState db → Map (GatewayCursor k) → SessionState db
    with_cursors s cursors = record s { cursors = cursors }

    -- `execute_client_sql` for a client that is logged in.
    unfoldable pub execute_client_sql :
        Translator → SessionState db → Text → SessionState db × Result (ExasolOutcome k)
    unfolding translate_client_sql
    execute_client_sql t s sql = elim (translate_client_sql t sql) [
      | err e ↦ (s, err e)
      | ok translated ↦
          let (world, outcome) = db.execute s.exasol translated in
          (record s { exasol = world }, outcome)
    ]

    -- A cursor is made before its first row; the second test of the name finds what the first one
    -- found, since nothing comes between in one client's handler.
    unfoldable pub open_cursor :
        SessionState db → CursorDeclare → ExasolOutcome k → SessionState db × Responses k
    unfolding outcome_data insert
    open_cursor s declare outcome = elim (outcome_data outcome) [
      | none ↦ (s, refusal (codes "0A000") (codes "cursor query must return rows"))
      | some contents ↦ elim (is_some (s.cursors declare.name)) [
        | true ↦
            (s, refusal (codes "42P03") (cursor_message declare.name (codes " already exists")))
        | false ↦ (
          with_cursors s (
              insert declare.name
                (record {
                  contents = contents;
                  position = negsuc 0;
                  scroll = declare.scroll;
                  hold = declare.hold;
                })
                s.cursors),
          executed (codes "DECLARE CURSOR") none,
        )
      ]
    ]

    unfoldable pub declare_in :
        Regexes → Translator → SessionState db → CursorDeclare → SessionState db × Responses k
    unfolding execute_client_sql open_cursor
    declare_in r t s declare = elim (is_some (s.cursors declare.name)) [
      | true ↦ (s, refusal (codes "42P03") (cursor_message declare.name (codes " already exists")))
      | false ↦
          let (s', answer) = execute_client_sql t s declare.query in
          elim answer [ err e ↦ (s', err e) | ok outcome ↦ open_cursor s' declare outcome ]
    ]

    -- The movement of a cursor that FETCH and MOVE share, with the answer made from the step.
    unfoldable pub step_cursor :
        ℕ
        → SessionState db
        → CursorPosition
        → Bool
        → (GatewayCursor k → CursorStep k → Responses k)
        → Option (SessionState db × Responses k)
    unfolding apply insert
    step_cursor fuel s position return_rows response = elim (s.cursors position.name) [
      | none ↦
          some (s, refusal (codes "34000") (cursor_message position.name (codes " does not exist")))
      | some cursor ↦ elim (apply fuel cursor position.direction return_rows) [
        | none ↦ none
        | some answer ↦ elim answer [
          | err e ↦ some (s, err e)
          | ok (cursor', step) ↦
              some (with_cursors s (insert position.name cursor' s.cursors), response cursor step)
        ]
      ]
    ]

    unfoldable pub fetch_cursor :
        ℕ → SessionState db → CursorPosition → Option (SessionState db × Responses k)
    unfolding step_cursor fetch_response metadata
    fetch_cursor fuel s position =
        step_cursor fuel s position true
          (λ cursor step. fetch_response (metadata cursor.contents) step.rows)

    unfoldable pub move_cursor :
        ℕ → SessionState db → CursorPosition → Option (SessionState db × Responses k)
    unfolding step_cursor
    move_cursor fuel s position =
        step_cursor fuel s position false (λ cursor step. executed (codes "MOVE") (some step.count))

    unfoldable pub close_cursor : SessionState db → CursorClose → SessionState db × Responses k
    unfolding remove
    close_cursor s CursorClose.every = (with_cursors s new, executed (codes "CLOSE CURSOR") none)
    close_cursor s (CursorClose.one name) = elim (s.cursors name) [
      | none ↦ (s, refusal (codes "34000") (cursor_message name (codes " does not exist")))
      | some _ ↦ (with_cursors s (remove name s.cursors), executed (codes "CLOSE CURSOR") none)
    ]

    -- The answer of a handler that works on the session, for a client who may not be logged in.
    abbrev pub on_session :
        Client db
        → (SessionState db → Option (SessionState db × Responses k))
        → Option (Client db × Responses k)
    on_session client f = elim client.session [
      | none ↦ some (client, err not_connected)
      | some s ↦ elim (f s) [
        | none ↦ none
        | some (s', answer) ↦ some (record client { session = some s' }, answer)
      ]
    ]

    -- `declare_cursor`: the query is looked at before the session is.
    unfoldable pub declare_cursor :
        Regexes → Translator → Client db → CursorDeclare → Option (Client db × Responses k)
    unfolding classify_statement is_cursor_unsafe_query declare_in
    declare_cursor r t client declare =
        elim (is_cursor_unsafe_query (classify_statement r declare.query)) [
          | true ↦ some (
            client,
            refusal (codes "0A000") (codes "cursor query must be a supported row-returning query"),
          )
          | false ↦ on_session client (λ s. some (declare_in r t s declare))
        ]

    unfoldable pub execute_cursor_plan :
        ℕ → Regexes → Translator → Client db → CursorPlan → Option (Client db × Responses k)
    unfolding declare_cursor fetch_cursor move_cursor close_cursor
    execute_cursor_plan fuel r t client (CursorPlan.declare declare) =
        declare_cursor r t client declare
    execute_cursor_plan fuel r t client (CursorPlan.fetch position) =
        on_session client (λ s. fetch_cursor fuel s position)
    execute_cursor_plan fuel r t client (CursorPlan.move position) =
        on_session client (λ s. move_cursor fuel s position)
    execute_cursor_plan fuel r t client (CursorPlan.close closing) =
        on_session client (λ s. some (close_cursor s closing))

    -- A client who is not logged in has no cursors to clear, which is no error.
    unfoldable pub clear_non_hold_cursors : Client db → Client db
    unfolding retain
    clear_non_hold_cursors client = elim client.session [
      | none ↦ client
      | some s ↦ record client {
        session = some (with_cursors s (retain (λ cursor. cursor.hold) s.cursors));
      }
    ]
