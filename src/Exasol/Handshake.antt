-- ===== src/Exasol/Handshake.antt =====
-- How src/exasol/websocket_transport.rs checks the server's certificate. Digests and the checks of the
-- native roots are parameters.
pub mod Agree
use exa_postgres_interface.Base.{
  Bool, true, false, not, ◌||◌, List, ℕ, ◌++◌, Option, none, some, if◌then◌else◌,
}
use exa_postgres_interface.Base.Text.{Text, codes, text_eq, to_ascii_uppercase}
use exa_postgres_interface.Exasol.{ExasolError, ExasolResult, ExasolConfig}
use exa_postgres_interface.Exasol.Endpoint.{EndpointConnection}

-- The connector: no TLS, or TLS with a verifier of the server's certificate.
pub data Connector : Type 0 where
  plain native_roots no_cert_verifier : Connector
  fingerprint_verifier : (expected : Text) → Connector

unfoldable pub build_connector : ExasolConfig → EndpointConnection → Connector
build_connector config endpoint =
    if not config.encryption then Connector.plain else elim endpoint.fingerprint [
      | none ↦ Connector.native_roots
      | some fp ↦ elim (text_eq fp (codes "NOCERTCHECK")) [
        | true ↦ Connector.no_cert_verifier
        | false ↦ Connector.fingerprint_verifier fp
      ]
    ]

-- The digest of a certificate in upper-case hexadecimal, and what the default client configuration
-- makes of a certificate and of the signature of a handshake.
pub record Certificates : Type 1 where
  pub Signature : Type 0
  pub certificate_sha256_hex : List ℕ → Text
  pub roots_verify_cert : List ℕ → Bool
  pub roots_verify_signature : List ℕ → Signature → Bool

module _ (c : Certificates) where
  unfoldable pub verify_fingerprint : Text → List ℕ → ExasolResult (Unit {0})
  unfolding to_ascii_uppercase
  verify_fingerprint expected cert =
      let actual = c.certificate_sha256_hex cert in
      if not (text_eq actual (to_ascii_uppercase expected))
      then ExasolResult.err (
          ExasolError.connection (
            codes "certificate fingerprint mismatch: expected "
            ++ (expected ++ (codes ", got " ++ actual))))
      else ExasolResult.ok tt

  abbrev pub is_ok {ℓ} : {A : Type ℓ} → ExasolResult A → Bool
  is_ok (ExasolResult.ok a) = true
  is_ok (ExasolResult.err e) = false

  unfoldable pub verify_server_cert : Connector → List ℕ → Bool
  unfolding verify_fingerprint
  verify_server_cert Connector.plain cert = true
  verify_server_cert Connector.native_roots cert = c.roots_verify_cert cert
  verify_server_cert Connector.no_cert_verifier cert = true
  verify_server_cert (Connector.fingerprint_verifier expected) cert =
      is_ok (verify_fingerprint expected cert)

  -- `verify_tls12_signature` and `verify_tls13_signature`: the two verifiers of the repository assert
  -- that the signature is good.
  unfoldable pub verify_signature : Connector → List ℕ → c.Signature → Bool
  verify_signature Connector.plain cert signature = true
  verify_signature Connector.native_roots cert signature = c.roots_verify_signature cert signature
  verify_signature Connector.no_cert_verifier cert signature = true
  verify_signature (Connector.fingerprint_verifier expected) cert signature = true
