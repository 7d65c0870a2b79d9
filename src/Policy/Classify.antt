-- ===== src/Policy/Classify.antt =====
-- `classify_statement`.
use exa_postgres_interface.Base.{Bool, true, false, not, ◌||◌, ◌++◌, if◌then◌else◌, none, some}
use exa_postgres_interface.Base.Text.{Text, codes, is_empty, text_eq, trim}
use exa_postgres_interface.Policy.Plan.{RowCountPolicy, CursorPlan, StatementPlan}
use exa_postgres_interface.Policy.Regexes.{Regexes}
use exa_postgres_interface.Policy.Words.{
  is_one_of, unwrap_or_default, normalize_sql, first_keyword, second_keyword, execute, reject,
  unsupported_policy, unsupported_no_equivalent,
}
use exa_postgres_interface.Policy.Targets.{classify_create, classify_alter, classify_drop}
use exa_postgres_interface.Policy.Cursors.{
  classify_declare_cursor, classify_cursor_position, classify_close_cursor,
}
use exa_postgres_interface.Policy.SearchPath.{SearchPathTarget, parse_search_path_value}
use exa_postgres_interface.Policy.Local.{is_safe_set, local_show, local_select}

abbrev pub set_search_path_re : Text
set_search_path_re = codes "(?i)^SET\\s+(?:SESSION\\s+)?search_path\\s*(?:=|TO\\b)\\s*(.+)$"

abbrev pub reset_re : Text
reset_re = codes "(?i)^RESET\\s+(ALL|[A-Za-z_][A-Za-z0-9_.]*)$"

unfoldable pub search_path_plan : SearchPathTarget → StatementPlan
search_path_plan (SearchPathTarget.single schema) = StatementPlan.set_search_path schema
search_path_plan SearchPathTarget.default = StatementPlan.client_set
search_path_plan SearchPathTarget.invalid = reject "42601" (codes "invalid search_path value")

-- The `match` on the first keyword.
unfoldable pub classify_keyword : Regexes → Text → StatementPlan
unfolding first_keyword second_keyword classify_create classify_alter classify_drop
    classify_declare_cursor classify_cursor_position classify_close_cursor unsupported_policy
    unsupported_no_equivalent
classify_keyword r cleaned =
    let keyword = first_keyword cleaned in
    if is_one_of keyword "SELECT WITH VALUES"
    then execute "SELECT" RowCountPolicy.omit
    else if is_one_of keyword "INSERT"
    then execute "INSERT" RowCountPolicy.include
    else if is_one_of keyword "UPDATE"
    then execute "UPDATE" RowCountPolicy.include
    else if is_one_of keyword "DELETE"
    then execute "DELETE" RowCountPolicy.include
    else if is_one_of keyword "MERGE"
    then execute "MERGE" RowCountPolicy.include
    else if is_one_of keyword "TRUNCATE"
    then execute "TRUNCATE TABLE" RowCountPolicy.omit
    else if is_one_of keyword "CREATE"
    then classify_create cleaned
    else if is_one_of keyword "ALTER"
    then classify_alter cleaned
    else if is_one_of keyword "DROP"
    then classify_drop cleaned
    else if is_one_of keyword "COMMENT"
    then execute "COMMENT" RowCountPolicy.omit
    else if is_one_of keyword "GRANT"
    then execute "GRANT" RowCountPolicy.omit
    else if is_one_of keyword "REVOKE"
    then execute "REVOKE" RowCountPolicy.omit
    else if is_one_of keyword "COPY"
    then unsupported_policy
        (codes "COPY requires a separate bulk data movement design before it can be exposed")
    else if is_one_of keyword "IMPORT EXPORT"
    then unsupported_policy (
        codes
          "Exasol IMPORT/EXPORT are not PostgreSQL commands and are not exposed through the gateway policy")
    else if is_one_of keyword "DECLARE"
    then classify_declare_cursor r cleaned
    else if is_one_of keyword "FETCH"
    then classify_cursor_position (codes "FETCH") CursorPlan.fetch cleaned
    else if is_one_of keyword "MOVE"
    then classify_cursor_position (codes "MOVE") CursorPlan.move cleaned
    else if is_one_of keyword "CLOSE"
    then classify_close_cursor cleaned
    else if is_one_of keyword "PREPARE EXECUTE DEALLOCATE"
    then unsupported_policy (
        codes
          "SQL prepared statement commands are not implemented; use PostgreSQL extended query protocol")
    else if is_one_of keyword "BEGIN START"
    then StatementPlan.client_transaction_start
    else if is_one_of keyword "COMMIT"
    then (if is_one_of (second_keyword cleaned) "PREPARED"
        then unsupported_no_equivalent (
            codes
              "PostgreSQL two-phase commit is not supported because no safe Exasol equivalent is configured")
        else StatementPlan.client_transaction_end (codes "COMMIT"))
    else if is_one_of keyword "ROLLBACK"
    then (if is_one_of (second_keyword cleaned) "TO PREPARED"
        then unsupported_no_equivalent (
            codes
              "PostgreSQL savepoints and two-phase commit are not supported because no safe Exasol equivalent is configured")
        else StatementPlan.client_transaction_end (codes "ROLLBACK"))
    else if is_one_of keyword "SAVEPOINT RELEASE"
    then unsupported_no_equivalent (
        codes
          "PostgreSQL savepoints are not supported because no safe Exasol equivalent is configured")
    else if is_one_of keyword "ABORT"
    then StatementPlan.client_transaction_end (codes "ROLLBACK")
    else if is_one_of keyword "END"
    then StatementPlan.client_transaction_end (codes "COMMIT")
    else if is_one_of keyword "SET RESET SHOW"
    then reject "0A000" (codes "unsupported PostgreSQL session command")
    else if is_one_of keyword "LISTEN NOTIFY UNLISTEN"
    then unsupported_no_equivalent
        (codes "PostgreSQL asynchronous notification commands have no Exasol equivalent")
    else if is_one_of keyword "VACUUM REINDEX CLUSTER CHECKPOINT ANALYZE"
    then unsupported_no_equivalent
        (codes "PostgreSQL maintenance commands have no safe Exasol equivalent in this gateway")
    else reject "0A000" (codes "unsupported SQL statement class: " ++ keyword)

unfoldable pub classify_cleaned : Regexes → Text → StatementPlan
unfolding trim parse_search_path_value search_path_plan is_safe_set local_show local_select
    classify_keyword
classify_cleaned r cleaned =
    if is_empty cleaned then StatementPlan.empty else elim (r.captures set_search_path_re cleaned) [
      | some group ↦
          search_path_plan (parse_search_path_value (trim (unwrap_or_default (group (codes "1")))))
      | none ↦ elim (is_safe_set r cleaned || r.is_match reset_re cleaned) [
        | true ↦ StatementPlan.client_set
        | false ↦ elim (local_show r cleaned) [
          | some show ↦ show
          | none ↦ elim (local_select r cleaned) [
            | some select ↦ select
            | none ↦ classify_keyword r cleaned
          ]
        ]
      ]
    ]

unfoldable pub classify_statement : Regexes → Text → StatementPlan
unfolding normalize_sql classify_cleaned
classify_statement r sql = classify_cleaned r (normalize_sql r sql)

unfoldable pub is_cursor_unsafe_query : StatementPlan → Bool
is_cursor_unsafe_query (StatementPlan.execute command _) = not (text_eq command (codes "SELECT"))
is_cursor_unsafe_query _ = true
