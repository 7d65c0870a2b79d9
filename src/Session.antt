-- ===== src/Session.antt =====
-- The session of one client in src/pg_server.rs and the answers that the gateway makes. A handler is a
-- function from the client's state; `none` is a handler that does not return within the fuel.
pub mod Cursors
pub mod Statements
pub mod Simple
pub mod Literals
pub mod Splitting
pub mod Valid
pub mod SearchPath
pub mod Frame
pub mod Catalog
pub mod Extended
pub mod Startup
pub mod Types
pub mod TypesAgree
pub mod Rows
use exa_postgres_interface.Base.{
  ℕ, Bool, Option, none, some, List, [], ◌∷◌, Result, ok, err, PgError,
}
use exa_postgres_interface.Base.Int.{ℤ}
use exa_postgres_interface.Base.Maps.{Map}
use exa_postgres_interface.Base.Text.{Text, codes}
use exa_postgres_interface.Crates.{Crates}
use exa_postgres_interface.Cursor.{TextRow, ExasolColumn, GatewayCursor, pg_error}

module _ (k : Crates) where
  pub data ExasolOutcome : Type 0 where
    arrow_rows : List k.RecordBatch → ExasolOutcome
    typed_rows : List (ExasolColumn k) → List TextRow → ExasolOutcome
    row_count : ℤ → ExasolOutcome

  pub data GatewayResponse : Type 0 where
    empty : GatewayResponse
    query : (columns : List Text) (rows : List TextRow) → GatewayResponse
    arrow_query :
        (schema : k.Schema) (batches : List k.RecordBatch) (command_tag : Option Text)
        (fold_labels : Bool)
        → GatewayResponse
    typed_query :
        (columns : List (ExasolColumn k)) (rows : List TextRow) (command_tag : Option Text)
        (fold_labels : Bool)
        → GatewayResponse
    execution : (command : Text) (rows : Option ℕ) → GatewayResponse
    transaction_start : (command : Text) → GatewayResponse
    transaction_end : (command : Text) → GatewayResponse
    error : (sqlstate message : Text) → GatewayResponse

  abbrev pub Responses : Type 0
  Responses = Result (List GatewayResponse)

  -- The database at the other end: its state, and what a statement sent to it does and returns.
  pub record Database : Type 1 where
    pub World : Type 0
    pub execute : World → Text → World × Result ExasolOutcome

-- `AppConfig.translation.enabled` and the two entry points of src/translator.rs that the handlers
-- call.
pub record Translator : Type 0 where
  pub enabled : Bool
  pub is_passthrough_query : Text → Bool
  pub translate_postgres_to_exasol : Text → Result Text

module _ {k : Crates} (db : Database k) where
  pub record SessionState : Type 0 where
    pub exasol : db.World
    pub extended_results : Map (GatewayResponse k)
    pub cursors : Map (GatewayCursor k)
    pub current_schema : Option Text

  -- `session` is `none` before the client has logged in.
  pub record Client : Type 0 where
    pub pid : ℕ
    pub session : Option SessionState

abbrev pub not_connected : PgError
not_connected = pg_error (codes "08003") (codes "Exasol session is not connected")
