-- ===== src/Tests/Programs.antt =====
-- Instances of the theorems on the log-in of a client, on the programs' arguments and on the checks of
-- the server's certificate.
use exa_postgres_interface.Base.{ℕ, true, false, ◌&&◌, [], ◌∷◌, some, ◌≡◌, refl, ◌↔◌, arith}
use exa_postgres_interface.Base.Text.{codes, to_ascii_uppercase}
use exa_postgres_interface.Exasol.{ExasolConfig}
use exa_postgres_interface.Exasol.Endpoint.{EndpointConnection, Checked, certificate_policy}
use exa_postgres_interface.Exasol.Handshake.{
  Certificates, Connector, build_connector, verify_server_cert, verify_signature,
}
use exa_postgres_interface.Exasol.Handshake.Agree.{
  verify_server_cert-certificate_policy, verify_fingerprint_iff,
}
use exa_postgres_interface.Bootstrap.Prompts.{confirm}
use exa_postgres_interface.Base.{ok, suc, none, if◌then◌else◌}
use exa_postgres_interface.Base.Int.{pos}
use exa_postgres_interface.Base.Text.{text_eq}
use exa_postgres_interface.Exasol.{ExasolError, ExasolResult, AppConfig, default_server}
use exa_postgres_interface.Exasol.Connect.{ExasolTransport, Connecting}
use exa_postgres_interface.Session.{ExasolOutcome, Client}
use exa_postgres_interface.Session.Startup.{
  Startup, StartupWire, exasol_database, on_startup, new_session,
}
use exa_postgres_interface.Session.Startup.Admitted.{IsAdmitted, on_startup-IsAdmitted}
use exa_postgres_interface.Tests.{lists}
use exa_postgres_interface.Programs.Arguments.{arguments_of, parse_from-arguments_of}
use exa_postgres_interface.Programs.Exec.{
  Settings, default_settings, parse_from, argument, check_settings, Source,
}
use exa_postgres_interface.Programs.Server.{Parsed, BootstrapMode, parse_args}

-- The password is the text of another option.
abbrev settings : Settings
settings = record default_settings {
  dsn = codes "h:8563";
  user = codes "u";
  password = codes "--help";
  validate_certificate = false;
  sql = some (codes "SELECT 1");
  repeat = 3;
}

parse_from-arguments_of_example :
    parse_from default_settings (arguments_of settings) ≡ Parsed.parsed settings
parse_from-arguments_of_example = parse_from-arguments_of settings (omega arith)

statement_given : check_settings settings ≡ Parsed.parsed (Source.given (codes "SELECT 1"))
unfolding check_settings
statement_given = refl

value_missing :
    parse_from default_settings (codes "--dsn" ∷ [])
    ≡ Parsed.refused (codes "missing value for --dsn")
unfolding parse_from argument
value_missing = refl

bootstrap_skipped :
    parse_args (codes "--no-bootstrap" ∷ codes "--config" ∷ codes "c.toml" ∷ [])
    ≡ Parsed.parsed
        (record { config_path = some (codes "c.toml"); bootstrap_mode = BootstrapMode.skip })
unfolding parse_args
bootstrap_skipped = refl

asked_again :
    confirm 2 true (Checked.valid (codes "maybe") ∷ Checked.valid (codes " NO ") ∷ [])
    ≡ some ([], Checked.valid false)
unfolding confirm
asked_again = refl

abbrev over_tls : ExasolConfig
over_tls = record {
  dsn = codes "h/ab:8563";
  encryption = true;
  certificate_fingerprint = [];
  validate_certificate = false;
  pass_client_credentials = true;
  schema = [];
  transport = codes "websocket";
}

abbrev pinned : EndpointConnection
pinned = record { host = codes "h"; port = 8563; fingerprint = some (codes "AB") }

-- A certificate stands for its digest, and any signature is wrong.
abbrev digests : Certificates
digests = record {
  Signature = ℕ;
  certificate_sha256_hex = λ cert. cert;
  roots_verify_cert = λ cert. false;
  roots_verify_signature = λ cert signature. false;
}

verify_server_cert-certificate_policy_example :
    (verify_server_cert digests (build_connector over_tls pinned) (codes "AB") ≡ true)
    ↔ (digests.certificate_sha256_hex (codes "AB") ≡ to_ascii_uppercase (codes "AB"))
unfolding certificate_policy
verify_server_cert-certificate_policy_example =
    verify_server_cert-certificate_policy digests over_tls pinned (codes "AB") (codes "AB") refl
      refl

verify_fingerprint_iff_example :
    ((verify_server_cert digests (Connector.fingerprint_verifier (codes "ab")) (codes "AB")
        && verify_signature digests (Connector.fingerprint_verifier (codes "ab")) (codes "AB") 0)
      ≡ true)
    ↔ (digests.certificate_sha256_hex (codes "AB") ≡ to_ascii_uppercase (codes "ab"))
verify_fingerprint_iff_example = verify_fingerprint_iff digests (codes "ab") (codes "AB") 0

-- A database that counts its statements and answers each with no rows changed; it knows one password.
abbrev counting_transport : ExasolTransport lists ℕ
counting_transport = record {
  execute = λ sql w. (suc w, ExasolResult.ok (ExasolOutcome.row_count (pos 0)));
  execute_update = λ sql w. (suc w, ExasolResult.ok tt);
  close = λ w. (w, ExasolResult.ok tt);
}

abbrev connecting : Connecting lists ℕ
connecting config endpoint username password w =
    if text_eq password (codes "secret")
    then (w, ExasolResult.ok counting_transport)
    else (w, ExasolResult.err (ExasolError.authentication (codes "refused")))

abbrev preprocessed : AppConfig
preprocessed = record {
  server = default_server;
  exasol = over_tls;
  translation = record {
    enabled = true;
    sql_preprocessor_script = codes "PG";
    session_init_sql = codes "ALTER SESSION SET SQL_PREPROCESSOR_SCRIPT={script}" ∷ [];
  };
}

abbrev wire : StartupWire
wire = record {
  World = ℕ;
  protocol_negotiation = λ c. (c, ok tt);
  save_startup_parameters = λ c. c;
  set_authenticating = λ c. c;
  ask_cleartext_password = λ c. (c, ok tt);
  user = λ c. some (codes "sys");
  set_pid_and_secret_key = λ c. (c, 42);
  finish_authentication = λ c. (c, ok tt);
}

abbrev newcomer : Client (exasol_database lists ℕ)
newcomer = record { pid = 0; session = none }

-- One statement has run when the session begins.
on_startup-IsAdmitted_example :
    IsAdmitted connecting connecting preprocessed wire 0 0
      (Startup.password_family (ok (codes "secret")))
      (new_session connecting connecting preprocessed 1 counting_transport)
unfolding on_startup
on_startup-IsAdmitted_example =
    on_startup-IsAdmitted connecting connecting preprocessed wire newcomer 0 0
      (Startup.password_family (ok (codes "secret")))
      (new_session connecting connecting preprocessed 1 counting_transport) refl refl
