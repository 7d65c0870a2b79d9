-- ===== src/Exasol.antt =====
-- src/exasol and src/config.rs: the configuration, the errors and the endpoint of a connection to
-- Exasol. `Json` and `WebSocket` have the JSON transport.
pub mod Endpoint
pub mod Json
pub mod Transpose
pub mod WebSocket
pub mod Fetching
pub mod Transposed
pub mod Certificates
pub mod Handshake
pub mod Login
pub mod Connect
pub mod Arrow
use exa_postgres_interface.Base.{ℕ, Bool, true, List, [], ◌++◌}
use exa_postgres_interface.Base.Text.{Text, codes}

pub data ExasolError : Type 0 where
  invalid_dsn connection authentication request execution : Text → ExasolError

pub data ExasolResult {ℓ} (A : Type ℓ) : Type ℓ where
  ok : A → ExasolResult A
  err : ExasolError → ExasolResult A

-- The `#[error]` texts.
unfoldable pub display : ExasolError → Text
display (ExasolError.invalid_dsn m) = codes "invalid Exasol DSN: " ++ m
display (ExasolError.connection m) = codes "Exasol connection failed: " ++ m
display (ExasolError.authentication m) = codes "Exasol authentication failed: " ++ m
display (ExasolError.request m) = codes "Exasol request failed: " ++ m
display (ExasolError.execution m) = codes "Exasol execution failed: " ++ m

pub record ExasolConfig : Type 0 where
  pub dsn : Text
  pub encryption : Bool
  pub certificate_fingerprint : Text
  pub validate_certificate : Bool
  pub pass_client_credentials : Bool
  pub schema : Text
  pub transport : Text

pub record ServerConfig : Type 0 where
  pub listen_host : Text
  pub listen_port : ℕ
  pub log_level : Text
  pub tls_cert_path : Text
  pub tls_key_path : Text

pub record TranslationConfig : Type 0 where
  pub enabled : Bool
  pub sql_preprocessor_script : Text
  pub session_init_sql : List Text

pub record AppConfig : Type 0 where
  pub server : ServerConfig
  pub exasol : ExasolConfig
  pub translation : TranslationConfig

-- The `Default` instances, which stand for a section that is left out.
abbrev pub default_server : ServerConfig
default_server = record {
  listen_host = codes "127.0.0.1";
  listen_port = 15432;
  log_level = codes "info";
  tls_cert_path = [];
  tls_key_path = [];
}

abbrev pub default_translation : TranslationConfig
default_translation = record { enabled = true; sql_preprocessor_script = []; session_init_sql = [] }
