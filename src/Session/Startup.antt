-- ===== src/Session/Startup.antt =====
-- The log-in of a client: `on_startup` and `connect_exasol` of src/pg_server.rs, and the session with
-- Exasol as the database of the handlers.
pub mod Admitted
use exa_postgres_interface.Base.{
  ℕ, Bool, true, false, not, ◌&&◌, ◌++◌, Option, none, some, if◌then◌else◌, Result, ok, err,
  PgError,
}
use exa_postgres_interface.Base.Text.{Text, codes, is_empty}
use exa_postgres_interface.Crates.{Crates}
use exa_postgres_interface.Cursor.{pg_error}
use exa_postgres_interface.Exasol.{ExasolError, ExasolResult, AppConfig, display}
use exa_postgres_interface.Exasol.Connect.{ExasolTransport, Connecting, connect, initialize}
use exa_postgres_interface.Session.{Database, SessionState, Client, ExasolOutcome}

unfoldable pub map_exasol_connection_error : ExasolError → PgError
unfolding display
map_exasol_connection_error e =
    pg_error (codes "28000") (codes "Exasol authentication or connection failed: " ++ display e)

unfoldable pub map_exasol_execution_error : ExasolError → PgError
unfolding display
map_exasol_execution_error e = pg_error (codes "XX000") (display e)

module _ (k : Crates) (W : Type 0) where
  abbrev pub executed_result : ExasolResult (ExasolOutcome k) → Result (ExasolOutcome k)
  unfolding map_exasol_execution_error
  executed_result (ExasolResult.ok outcome) = ok outcome
  executed_result (ExasolResult.err e) = err (map_exasol_execution_error e)

  -- A connection and the world that it acts on.
  unfoldable pub exasol_execute :
      W × ExasolTransport k W → Text → (W × ExasolTransport k W) × Result (ExasolOutcome k)
  unfolding executed_result
  exasol_execute (w, session) sql =
      let (w', answer) = session.execute sql w in ((w', session), executed_result answer)

  unfoldable pub exasol_database : Database k
  unfolding exasol_execute
  exasol_database = record { World = W × ExasolTransport k W; execute = exasol_execute }

-- The messages of the start-up; a password may be of another kind than a clear text.
pub data Startup : Type 0 where
  startup : Startup
  password_family : Result Text → Startup
  another : Startup

-- What pgwire does for a connection that starts: its parameters, among them the user, and its messages.
pub record StartupWire : Type 1 where
  pub World : Type 0
  pub protocol_negotiation : World → World × Result (Unit {0})
  pub save_startup_parameters : World → World
  pub set_authenticating : World → World
  pub ask_cleartext_password : World → World × Result (Unit {0})
  pub user : World → Option Text
  -- The process id that it drew is the client's from then on.
  pub set_pid_and_secret_key : World → World × ℕ
  pub finish_authentication : World → World × Result (Unit {0})

pub data StartupError : Type 0 where
  user_name_required : StartupError
  failed : PgError → StartupError

pub data Started : Type 0 where
  started : Started
  refused : StartupError → Started

abbrev pub outcome_of : Result (Unit {0}) → Started
outcome_of (ok _) = Started.started
outcome_of (err e) = Started.refused (StartupError.failed e)

module _ {k : Crates} {W : Type 0} (arrow web_socket : Connecting k W) (config : AppConfig) where
  abbrev pub new_session : W → ExasolTransport k W → SessionState (exasol_database k W)
  unfolding exasol_database
  new_session w session = record {
    exasol = (w, session);
    extended_results = λ name. none;
    cursors = λ name. none;
    current_schema = none;
  }

  unfoldable pub connect_exasol : Text → Text → W → W × Result (SessionState (exasol_database k W))
  unfolding new_session connect initialize map_exasol_connection_error
  connect_exasol username password w =
      let (w', connected) = connect arrow web_socket config.exasol username password w in
      elim connected [
        | ExasolResult.err e ↦ (w', err (map_exasol_connection_error e))
        | ExasolResult.ok session ↦
            elim (config.translation.enabled
              && not (is_empty config.translation.sql_preprocessor_script)) [
                | false ↦ (w', ok (new_session w' session))
                | true ↦
                    let (w'', initialized) =
                      initialize session config.translation.session_init_sql
                        config.translation.sql_preprocessor_script w' in
                    elim initialized [
                      | ExasolResult.err e ↦ (w'', err (map_exasol_connection_error e))
                      | ExasolResult.ok _ ↦ (w'', ok (new_session w'' session))
                    ]
              ]
      ]

  -- The answer to the start-up message.
  abbrev pub on_startup_message : (p : StartupWire) → p.World → p.World × Started
  on_startup_message p c =
      let (c1, negotiated) = p.protocol_negotiation c in
      elim negotiated [
        | err e ↦ (c1, Started.refused (StartupError.failed e))
        | ok _ ↦
            let (c2, asked) =
              p.ask_cleartext_password (p.set_authenticating (p.save_startup_parameters c1)) in
            (c2, outcome_of asked)
      ]

  -- The client's state, the connection with the client and the world of the database.
  unfoldable pub on_startup :
      (p : StartupWire)
      → Client (exasol_database k W)
      → p.World
      → W
      → Startup
      → Client (exasol_database k W) × p.World × W × Started
  unfolding connect_exasol
  on_startup p client c w Startup.another = (client, c, w, Started.started)
  on_startup p client c w Startup.startup =
      let (c', result) = on_startup_message p c in (client, c', w, result)
  on_startup p client c w (Startup.password_family (err e)) =
      (client, c, w, Started.refused (StartupError.failed e))
  on_startup p client c w (Startup.password_family (ok password)) = elim (p.user c) [
    | none ↦ (client, c, w, Started.refused StartupError.user_name_required)
    | some username ↦
        let (w', connected) = connect_exasol username password w in
        elim connected [
          | err e ↦ (client, c, w', Started.refused (StartupError.failed e))
          | ok session ↦
              let (c', pid) = p.set_pid_and_secret_key c in
              let (c'', finished) = p.finish_authentication c' in
              (record client { pid = pid; session = some session }, c'', w', outcome_of finished)
        ]
  ]
