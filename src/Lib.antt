-- ===== src/Lib.antt =====
-- exa-postgres-interface is a gateway: PostgreSQL clients speak to it over their wire protocol, and it
-- answers from an Exasol database. This library models the parts that decide what a statement means,
-- keep the state of a client's session, speak the extended protocol and fetch the results of Exasol.
--
-- The program's parts and their files here:
-- - src/policy.rs sorts a statement into a plan. Policy/Plan has the plans, Policy/Words the words of a
--   statement (first_keyword, second_keyword, unquote_identifier, normalize_sql), Policy/Targets CREATE,
--   ALTER and DROP, Policy/Cursors the cursor statements, Policy/SearchPath the value of search_path,
--   Policy/Catalog the queries on pg_settings, Policy/Local the other answers that need no database, and
--   Policy/Classify puts them together as classify_statement does; Policy/Kept and Policy/Served have
--   the lemmas on which plans are to be executed. The regex crate is not part of the
--   repository: Policy/Regexes has its operations as a parameter, and the patterns are the source's.
-- - src/pg_server.rs runs the plans. Batches has the slices of lists of Arrow batches; Cursor and
--   Cursor/Apply have GatewayCursor with its movements (forward, backward, absolute, relative, seek,
--   apply); Session, Session/Cursors and Session/Statements have the session's state and its handlers
--   (declare_cursor, fetch_cursor, move_cursor, close_cursor, clear_non_hold_cursors and the match of
--   execute_statement on the plan); Session/Catalog has the whole of execute_statement, with the catalog
--   queries of drivers that come before the plan (execute_metadata_query), whose SQL is in
--   Session/Catalog/Queries; Session/Simple has split_simple_query and sql_string_literal. Session/Types
--   has the labels and the PostgreSQL types of columns, Session/Rows the encoding of rows (query_response,
--   query_response_arrow, encode_one_row) and Arrow values as text. Session/Extended has the extended protocol:
--   Parameters the types and values of parameters (infer_parameter_types, render_portal_sql), Binary the
--   values in binary format, Portals the conversion of answers (Answers
--   fills its interface with the rows of Session/Rows), Describe, the cache of its result and
--   execute_simple_query, and Portals/Execute the handler of an Execute message (on_execute). Session/Startup has the
--   log-in of a client (on_startup, connect_exasol); what pgwire does for it is the parameter
--   StartupWire.
-- - src/metadata.rs finds the catalog queries of drivers (detect, in Metadata) and describes the types
--   of Exasol's columns (map_exasol_column_type, in Metadata/Types).
-- - src/exasol and src/config.rs connect to Exasol. Exasol has the errors and the settings with their
--   defaults, Exasol/Endpoint the checks of the settings and the endpoint of a DSN, Exasol/Connect the
--   session over one of the two transports (connect, initialize), Exasol/Handshake the checks of the
--   server's certificate, Exasol/Login the connecting and the log-in of the JSON transport,
--   Exasol/WebSocket its requests (request, read_json_response, execute, parse_result_set),
--   Exasol/Transpose the rows of a JSON result (transpose_data) and Exasol/Arrow the outcomes of the Arrow transport.
--   serde_json is the parameter Json of Exasol/Json, the socket and its messages are the parameter Socket,
--   the encryption of the password and the opening of the connection the parameter LoginCrates, the
--   digests and the checks of the native roots the parameter Certificates, and the driver exarrow_rs the
--   parameter Driver.
-- - src/bootstrap.rs installs the catalog: Bootstrap has split_exasol_sql, execute_exasol_script,
--   first_count, preview_statement and toml_escape, Bootstrap/Prompts the questions and the configuration
--   that their answers make (confirm, prompt_required, prompt_config), and Bootstrap/Interactive
--   run_interactive_bootstrap and ensure_config_file.
-- - src/translator.rs makes Exasol's SQL of PostgreSQL's: Translator/Pipeline has
--   translate_postgres_to_exasol, is_passthrough_query and the translator that the session's handlers take,
--   Translator/Detection the test for statements that pass to Exasol as they are
--   (is_exasol_passthrough_sql), Translator/Known the queries that are answered as a whole
--   (rewrite_known_metadata_query) with their texts in Translator/Known/Queries and the filters that are
--   kept in Translator/Known/Filters, Translator/Keys the queries on keys and tables, Translator/Rewrites
--   the rewrites of one pattern each, and Translator/Catalog their order (rewrite_pg_catalog) and the
--   repair of what the transpiler makes (rewrite_sqlglot_edge_cases). The patterns and tables are in
--   Translator/Patterns and Translator/Constants. A closure of replace_all gets the matches in turn, which
--   Regexes has as the field matches; Translator/Laws has what is relied on of them. The crate
--   polyglot-sql is the parameter transpile.
-- - src/main.rs and src/bin/exasol_exec.rs read their arguments in Programs/Server and Programs/Exec.
--
-- How state and effects are modelled: a handler is a function from the client's state to its new state
-- and a result, Client holding the SessionState once the client has logged in. The mutexes are left
-- out, since one connection's handlers run one after the other. A HashMap is a function from keys
-- (Base/Maps). The database is a parameter (Database in Session): a state and what a statement sent to
-- it does and returns. The handlers take the translator as a
-- parameter too, which gateway_translator of Translator/Pipeline fills. The crate
-- arrow is the parameter Crates; CratesLaws has what its documentation promises of slice and take. The
-- crate pgwire is the parameter Wire of Session/Extended/Portals/Execute: the state of a connection, its
-- portals and the sending of an answer; WireLaws has what on_execute relies on. The regular expressions
-- of the parameters and from_utf8 are the parameter Decoding. The handlers of the extended protocol take
-- execute_statement as an argument.
--
-- Numbers: i64 and isize are the integers of Base/Int, whose sums and negations wrap around at 2^63, as
-- release builds do. A text is a list of code points; where the source keeps byte offsets, the pieces
-- that it cuts are taken directly.
--
-- Fuel: forward and backward call one another on a negative count, so that each call takes a unit of
-- fuel and none is a chain of calls that did not end. Two units are enough unless the count is -2^63,
-- for which no number is. The value of search_path is read with its length as fuel; the recursive call
-- is on a shorter text.
--
-- A message or a chunk of a result takes a unit of fuel in the loops of the JSON transport; a server that
-- sends only pings, or chunks that count no rows, makes them go on without end.
--
-- A question of the bootstrap takes a unit of fuel for each line of the input. One more than the lines
-- that are left is enough for confirm (Bootstrap/Prompts); no number is for prompt_required, once the
-- input has ended.
--
-- Not modelled: what is printed and logged, the listener, its TLS and the shut-down of the server in
-- pg_server.rs, and the times that the benchmark of exasol_exec.rs measures, since these are
-- input and output by other crates; rewrite_exasol_edge_case_sql of pg_server.rs, which is compiled for its
-- tests only; and do_describe_statement and get_result_schema, which answer without parameters or fields.
--
-- Base has the shared helpers; Tests and the modules below it have concrete instances of the
-- parameters with tests and instances of the theorems.
pub mod Base
pub mod Crates
pub mod Policy
pub mod Programs
pub mod Batches
pub mod Cursor
pub mod Exasol
pub mod Metadata
pub mod Bootstrap
pub mod Session
mod Tests
pub mod Translator
