-- ===== src/Exasol/Handshake/Agree.antt =====
-- The checks of the certificate on both transports.
use exa_postgres_interface.Base.{
  true, ◌&&◌, List, ℕ, Option-cases, none, some, inl, inr, Bool-cases, ◌≡◌, refl, ◌↔◌, arith,
}
use exa_postgres_interface.Base.Text.{Text, codes, text_eq, text_eq_iff, to_ascii_uppercase}
use exa_postgres_interface.Exasol.{ExasolConfig}
use exa_postgres_interface.Exasol.Endpoint.{EndpointConnection, certificate_policy}
use exa_postgres_interface.Exasol.Handshake.{
  Connector, Certificates, build_connector, verify_fingerprint, verify_server_cert,
  verify_signature,
}

not_some {ℓ} : {A : Type ℓ} {x : A} → ¬ (none ≡ some x)
not_some h = cc

some-injective {ℓ} : {A : Type ℓ} {x y : A} → some x ≡ some y → x ≡ y
some-injective h = cc

verify_server_cert_iff :
    (c : Certificates) (expected : Text) (cert : List ℕ)
    → (verify_server_cert c (Connector.fingerprint_verifier expected) cert ≡ true)
      ↔ (c.certificate_sha256_hex cert ≡ to_ascii_uppercase expected)
unfolding verify_server_cert verify_fingerprint
verify_server_cert_iff c expected cert =
    elim (Bool-cases (text_eq (c.certificate_sha256_hex cert) (to_ascii_uppercase expected))) [
      | inl t ↦ (λ h. (text_eq_iff _ _).0 t, λ h. rw t refl)
      | inr f ↦ (
        λ h. absurd (ground (arith, h, f)),
        λ h. absurd (
            ground (
              arith,
              f,
              (text_eq_iff (c.certificate_sha256_hex cert) (to_ascii_uppercase expected)).1 h,
            )),
      )
    ]

-- Over TLS, the fingerprint that the Arrow driver is told to pin, if it is told one, is the one by which
-- the WebSocket transport accepts a certificate: it accepts those whose digest it is, and no others.
pub verify_server_cert-certificate_policy :
    (c : Certificates) (config : ExasolConfig) (endpoint : EndpointConnection) (fp : Text)
    (cert : List ℕ)
    → config.encryption ≡ true
    → (certificate_policy endpoint config).1 ≡ some fp
    → (verify_server_cert c (build_connector config endpoint) cert ≡ true)
      ↔ (c.certificate_sha256_hex cert ≡ to_ascii_uppercase fp)
unfolding certificate_policy build_connector
verify_server_cert-certificate_policy c config endpoint fp cert tls pinned =
    elim (Option-cases endpoint.fingerprint) [
      | inl e ↦ absurd (not_some (rw (e, certificate_policy) at pinned))
      | inr (f, e) ↦ elim (Bool-cases (text_eq f (codes "NOCERTCHECK"))) [
        | inl t ↦ absurd (not_some (rw (e, t, certificate_policy) at pinned))
        | inr u ↦
            let same : f ≡ fp = some-injective (rw (e, u, certificate_policy) at pinned) in
            rw (e, tls, u, build_connector) (rw same (verify_server_cert_iff c fp cert))
      ]
    ]

-- With a fingerprint to pin, a handshake is accepted exactly where the certificate has it, whatever
-- the signature of the handshake is: nothing shows that the server has the key of the certificate.
pub verify_fingerprint_iff :
    (c : Certificates) (expected : Text) (cert : List ℕ) (signature : c.Signature)
    → ((verify_server_cert c (Connector.fingerprint_verifier expected) cert
          && verify_signature c (Connector.fingerprint_verifier expected) cert signature)
        ≡ true)
      ↔ (c.certificate_sha256_hex cert ≡ to_ascii_uppercase expected)
unfolding verify_server_cert verify_fingerprint verify_signature
verify_fingerprint_iff c expected cert signature =
    elim (Bool-cases (text_eq (c.certificate_sha256_hex cert) (to_ascii_uppercase expected))) [
      | inl t ↦ (λ h. (text_eq_iff _ _).0 t, λ h. rw t refl)
      | inr f ↦ (
        λ h. absurd (ground (arith, h, f)),
        λ h. absurd (
            ground (
              arith,
              f,
              (text_eq_iff (c.certificate_sha256_hex cert) (to_ascii_uppercase expected)).1 h,
            )),
      )
    ]
