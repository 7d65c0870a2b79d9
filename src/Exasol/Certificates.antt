-- ===== src/Exasol/Certificates.antt =====
-- The endpoint of a DSN with a host and a port, and whether the certificate of the database is
-- checked.
use exa_postgres_interface.Base.{
  ℕ, ◌<◌, ◌^◌, Bool, true, false, not, if◌then◌else◌, [], ◌∷◌, ◌++◌, reverse, ◌==◌, ◌≡◌, ◌≢◌,
  append_assoc, refl, Option, none, some, Bool-cases, inl, inr, arith, ap, ◌∙◌, All, All-append,
  All-reverse, All-mono, Option-cases, subst,
}
use mathlib.Core.List.{reverse-append, reverse-reverse, reverse-cons}
use exa_postgres_interface.Base.Text.{
  Text, codes, text_eq, text_eq_iff, is_empty, trim, trim_of_All, is_whitespace, is_ascii_digit,
  to_ascii_uppercase, parse_unsigned-to_decimal, to_decimal, to_decimal-All,
}
use exa_postgres_interface.Exasol.{ExasolConfig, ExasolResult}
use exa_postgres_interface.Exasol.Endpoint.{
  EndpointConnection, parse_endpoint, endpoint_fingerprint, split_fingerprint, certificate_policy,
  split_char, rsplit_char, before,
}

module _ (c : ℕ) where
  -- Without the character.
  abbrev Without : Text → Type 0
  Without s = All (λ d. (d == c) ≡ false) s

  before-Without : (s rest : Text) → Without s → before c (s ++ c ∷ rest) ≡ s
  before-Without [] rest h = ground arith
  before-Without (d ∷ s) rest (k, h) = rw k (ap (λ t. d ∷ t) (before-Without s rest h))

  split_char-Without : (s : Text) → Without s → split_char c s ≡ none
  split_char-Without [] h = refl
  split_char-Without (d ∷ s) (k, h) = rw (k, split_char) (rw (split_char-Without s h))

  split_char-append : (s rest : Text) → Without s → split_char c (s ++ c ∷ rest) ≡ some (s, rest)
  split_char-append [] rest h = ground arith
  split_char-append (d ∷ s) rest (k, h) = rw (k, split_char) (rw (split_char-append s rest h))

  reverse_around : (s t : Text) → reverse (s ++ c ∷ t) ≡ reverse t ++ c ∷ reverse s
  reverse_around s t =
      reverse-append s (c ∷ t)
      ∙ ap (λ u. u ++ reverse s) (reverse-cons c t)
      ∙ append_assoc (reverse t) (c ∷ []) (reverse s)

  rsplit_char-append : (s t : Text) → Without t → rsplit_char c (s ++ c ∷ t) ≡ some (s, t)
  rsplit_char-append s t h =
      rw (reverse_around s t, rsplit_char)
        (rw (split_char-append (reverse t) (reverse s) (All-reverse (λ d. (d == c) ≡ false) t h))
          (rw (reverse-reverse s) (rw (reverse-reverse t))))

-- A character of a plain host name.
abbrev pub IsHostChar : ℕ → Type 0
IsHostChar c = (is_whitespace c ≡ false) × ((c == b',') ≡ false) × ((c == b'/') ≡ false)

digit-IsHostChar : (c : ℕ) → is_ascii_digit c ≡ true → IsHostChar c
unfolding is_whitespace
digit-IsHostChar c h = (ground (arith, h), ground (arith, h), ground (arith, h))

endpoint_text-All :
    (host : Text) (port : ℕ) → All IsHostChar host → All IsHostChar (host ++ b':' ∷ to_decimal port)
unfolding is_whitespace
endpoint_text-All host port h =
    All-append IsHostChar host _ h
      ((refl, refl, refl), All-mono digit-IsHostChar (to_decimal port) (to_decimal-All port))

split_fingerprint_plain : (host : Text) → Without b'/' host → split_fingerprint host ≡ (host, none)
unfolding split_fingerprint
split_fingerprint_plain host h = rw (split_char-Without b'/' host h, split_fingerprint)

-- What is pinned for a DSN without a fingerprint: by the text of the configuration without the blanks
-- around it, and whether the certificate is to be validated.
abbrev pub configured_pin : Text → Bool → Option Text
configured_pin [] true = none
configured_pin [] false = some (codes "NOCERTCHECK")
configured_pin (c ∷ s) validate = some (to_ascii_uppercase (c ∷ s))

endpoint_fingerprint-configured_pin :
    (config : ExasolConfig)
    → endpoint_fingerprint config none
      ≡ configured_pin (trim config.certificate_fingerprint) config.validate_certificate
unfolding endpoint_fingerprint
endpoint_fingerprint-configured_pin config =
    go (trim config.certificate_fingerprint) config.validate_certificate
  where
    go :
        (s : Text) (b : Bool)
        → (if not (is_empty s)
            then some (to_ascii_uppercase s)
            else if not b
            then some (codes "NOCERTCHECK")
            else none)
          ≡ configured_pin s b
    go [] true = refl
    go [] false = refl
    go (c ∷ s) b = refl

-- The endpoint of a DSN `host:port`, with more endpoints behind a comma, is the first host with its
-- port, if the host has no blank, comma or slash and the port has 16 bits. Its fingerprint is the one of
-- the configuration, without blanks around it and in capitals; where the configuration has none, it is
-- the word NOCERTCHECK if validation is off, and otherwise there is none.
pub parse_endpoint_lem :
    (host : Text) (port : ℕ) (others : Text) (config : ExasolConfig)
    → All IsHostChar host
    → port < 2 ^ 16
    → parse_endpoint (host ++ b':' ∷ to_decimal port ++ b',' ∷ others) config
      ≡ ExasolResult.ok (record {
        host = host;
        port = port;
        fingerprint =
            configured_pin (trim config.certificate_fingerprint) config.validate_certificate;
      })
unfolding parse_endpoint
parse_endpoint_lem host port others config h p =
    let all = endpoint_text-All host port h in
    let t = host ++ b':' ∷ to_decimal port in
    let colon : Without b':' (to_decimal port) =
      All-mono (λ c d. let e : (c == b':') ≡ false = ground (arith, d) in e) (to_decimal port)
        (to_decimal-All port) in
    rw (before-Without b',' t others (All-mono (λ c d. d.1) t all), parse_endpoint)
      (rw (trim_of_All t (All-mono (λ c d. d.0) t all)) (
        rw (rsplit_char-append b':' host (to_decimal port) colon) (
          rw (parse_unsigned-to_decimal (2 ^ 16) port p) (
            rw (split_fingerprint_plain host (All-mono (λ c d. d.2) host h))
              (rw (endpoint_fingerprint-configured_pin config))))))

-- A fingerprint is no word for leaving the check out.
abbrev pub IsPin : Option Text → Type 0
IsPin none = Unit {0}
IsPin (some fingerprint) = fingerprint ≢ codes "NOCERTCHECK"

endpoint_fingerprint-IsPin :
    (config : ExasolConfig) (dsn_fingerprint : Option Text)
    → config.validate_certificate ≡ true
    → to_ascii_uppercase (trim config.certificate_fingerprint) ≢ codes "NOCERTCHECK"
    → ((f : Text) → dsn_fingerprint ≡ some f → to_ascii_uppercase f ≢ codes "NOCERTCHECK")
    → IsPin (endpoint_fingerprint config dsn_fingerprint)
unfolding endpoint_fingerprint
endpoint_fingerprint-IsPin config dsn_fingerprint v c d =
    elim (Bool-cases (is_empty (trim config.certificate_fingerprint))) [
      | inr set ↦ rw (set, endpoint_fingerprint) c
      | inl unset ↦
          rw (unset, endpoint_fingerprint)
            (elim (Option-cases dsn_fingerprint) [
              | inl absent ↦ rw absent (rw v tt)
              | inr (f, present) ↦ rw present (d f present)
            ])
    ]

certificate_policy-IsPin :
    (config : ExasolConfig) (endpoint : EndpointConnection)
    → config.validate_certificate ≡ true
    → IsPin endpoint.fingerprint
    → certificate_policy endpoint config ≡ (true, endpoint.fingerprint)
unfolding certificate_policy
certificate_policy-IsPin config endpoint v pin = elim (Option-cases endpoint.fingerprint) [
  | inl absent ↦ rw (absent, certificate_policy) (rw v)
  | inr (f, present) ↦
      let ne : f ≢ codes "NOCERTCHECK" = subst IsPin present pin in
      let differ : text_eq f (codes "NOCERTCHECK") ≡ false =
        elim (Bool-cases (text_eq f (codes "NOCERTCHECK"))) [
          | inl same ↦ absurd (ne ((text_eq_iff f (codes "NOCERTCHECK")).0 same))
          | inr other ↦ other
        ] in
      rw (present, certificate_policy) (rw differ (rw v))
]

-- Where the certificate is to be validated, the driver is told so, with the fingerprint to pin if
-- there is one, unless the fingerprint of the configuration or of the DSN is the word NOCERTCHECK.
pub certificate_policy-endpoint_fingerprint :
    (host : Text) (port : ℕ) (config : ExasolConfig) (dsn_fingerprint : Option Text)
    → config.validate_certificate ≡ true
    → to_ascii_uppercase (trim config.certificate_fingerprint) ≢ codes "NOCERTCHECK"
    → ((f : Text) → dsn_fingerprint ≡ some f → to_ascii_uppercase f ≢ codes "NOCERTCHECK")
    → certificate_policy
        (record {
          host = host;
          port = port;
          fingerprint = endpoint_fingerprint config dsn_fingerprint;
        })
        config
      ≡ (true, endpoint_fingerprint config dsn_fingerprint)
certificate_policy-endpoint_fingerprint host port config dsn_fingerprint v c d =
    certificate_policy-IsPin config _ v (endpoint_fingerprint-IsPin config dsn_fingerprint v c d)
