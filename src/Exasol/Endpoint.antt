-- ===== src/Exasol/Endpoint.antt =====
-- `Transport::from_config`, the checks of `AppConfig::from_file` and `EndpointConnection`.
use exa_postgres_interface.Base.{
  ℕ, Bool, true, false, not, ◌==◌, if◌then◌else◌, [], ◌∷◌, ◌++◌, reverse, Option, none, some, ◌^◌,
}
use exa_postgres_interface.Base.Text.{
  Text, codes, text_eq, is_empty, trim, to_ascii_uppercase, parse_unsigned,
}
use exa_postgres_interface.Exasol.{ExasolError, ExasolResult, ExasolConfig, AppConfig}

pub data Transport : Type 0 where
  web_socket arrow : Transport

-- A configuration error is its message.
pub data Checked {ℓ} (A : Type ℓ) : Type ℓ where
  valid : A → Checked A
  invalid : Text → Checked A

unfoldable pub from_config : ExasolConfig → Checked Transport
from_config config =
    if text_eq config.transport (codes "websocket")
    then Checked.valid Transport.web_socket
    else if text_eq config.transport (codes "arrow")
    then Checked.valid Transport.arrow
    else Checked.invalid (
        codes "unknown transport '"
        ++ config.transport
        ++ codes "': accepted values are 'websocket' and 'arrow'")

-- `==` of `bool`.
abbrev same : Bool → Bool → Bool
same a b = if a then b else not b

-- `from_file`, behind the reading of the file.
unfoldable pub check_config : AppConfig → Checked AppConfig
unfolding trim from_config
check_config config =
    if is_empty (trim config.exasol.dsn)
    then Checked.invalid (codes "exasol.dsn is required")
    else if not (
        same (is_empty (trim config.server.tls_cert_path))
          (is_empty (trim config.server.tls_key_path)))
    then Checked.invalid (codes "server.tls_cert_path and server.tls_key_path must be set together")
    else elim (from_config config.exasol) [
      | Checked.invalid message ↦ Checked.invalid message
      | Checked.valid _ ↦ Checked.valid config
    ]

unfoldable pub log_filter : AppConfig → Text
log_filter config =
    codes "exa_postgres_interface=" ++ config.server.log_level ++ codes ",pgwire=info"

pub record EndpointConnection : Type 0 where
  pub host : Text
  pub port : ℕ
  pub fingerprint : Option Text

-- The text before the first character `c`, or all of it.
abbrev pub before : ℕ → Text → Text
before c [] = []
before c (d ∷ s) = let rest = before c s in if d == c then [] else d ∷ rest

abbrev pub split_char : ℕ → Text → Option (Text × Text)
split_char c [] = none
split_char c (d ∷ s) = elim (d == c) [
  | true ↦ some ([], s)
  | false ↦ elim (split_char c s) [ none ↦ none | some (a, b) ↦ some (d ∷ a, b) ]
]

-- `rsplit_once`: cut at the last occurrence.
abbrev pub rsplit_char : ℕ → Text → Option (Text × Text)
rsplit_char c s = elim (split_char c (reverse s)) [
  | none ↦ none
  | some (behind, front) ↦ some (reverse front, reverse behind)
]

unfoldable pub endpoint_fingerprint : ExasolConfig → Option Text → Option Text
unfolding trim to_ascii_uppercase
endpoint_fingerprint config dsn_fingerprint =
    if not (is_empty (trim config.certificate_fingerprint))
    then some (to_ascii_uppercase (trim config.certificate_fingerprint))
    else elim dsn_fingerprint [
      | some fingerprint ↦ some (to_ascii_uppercase fingerprint)
      | none ↦ if not config.validate_certificate then some (codes "NOCERTCHECK") else none
    ]

-- The host and the fingerprint of a DSN, around its first slash.
unfoldable pub split_fingerprint : Text → Text × Option Text
split_fingerprint host_and_fingerprint = elim (split_char b'/' host_and_fingerprint) [
  | some (host, fingerprint) ↦ (host, some fingerprint)
  | none ↦ (host_and_fingerprint, none)
]

unfoldable pub parse_endpoint : Text → ExasolConfig → ExasolResult EndpointConnection
unfolding trim parse_unsigned endpoint_fingerprint split_fingerprint
parse_endpoint dsn config = elim (rsplit_char b':' (trim (before b',' dsn))) [
  | none ↦ ExasolResult.err (ExasolError.invalid_dsn dsn)
  | some (host_and_fingerprint, port_text) ↦ elim (parse_unsigned (2 ^ 16) port_text) [
    | none ↦ ExasolResult.err (ExasolError.invalid_dsn dsn)
    | some port ↦
        let (host, dsn_fingerprint) = split_fingerprint host_and_fingerprint in
        ExasolResult.ok (record {
          host = host;
          port = port;
          fingerprint = endpoint_fingerprint config dsn_fingerprint;
        })
  ]
]

-- What `to_connection_params` tells the driver: whether to validate the certificate, and the
-- fingerprint to pin.
unfoldable pub certificate_policy : EndpointConnection → ExasolConfig → Bool × Option Text
certificate_policy endpoint config = elim endpoint.fingerprint [
  | none ↦ (config.validate_certificate, none)
  | some fp ↦ elim (text_eq fp (codes "NOCERTCHECK")) [
    | true ↦ (false, none)
    | false ↦ (config.validate_certificate, some fp)
  ]
]
