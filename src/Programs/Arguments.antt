-- ===== src/Programs/Arguments.antt =====
-- The arguments of src/bin/exasol_exec.rs that stand for given settings.
use exa_postgres_interface.Base.{
  ℕ, ◌<◌, ◌^◌, Bool, true, false, List, [], ◌∷◌, ◌++◌, Option, none, some, ◌≡◌, refl, ap, ◌∙◌,
}
use exa_postgres_interface.Base.Text.{Text, codes, to_decimal, parse_unsigned-to_decimal}
use exa_postgres_interface.Programs.Exec.{
  Settings, default_settings, Valued, Argument, flag, argument, set_value, parse_from,
}
use exa_postgres_interface.Programs.Server.{Parsed}

abbrev pub optional : Valued → Option Text → List Text
optional v none = []
optional v (some value) = flag v ∷ value ∷ []

abbrev pub no_verify_if : Bool → List Text
no_verify_if true = []
no_verify_if false = codes "--no-verify" ∷ []

-- One option for each setting, and none for a statement, a file or a check that is left out.
unfoldable pub arguments_of : Settings → List Text
arguments_of s =
    flag Valued.dsn
    ∷ s.dsn
    ∷ flag Valued.user
    ∷ s.user
    ∷ flag Valued.password
    ∷ s.password
    ∷ flag Valued.schema
    ∷ s.schema
    ∷ flag Valued.transport
    ∷ s.transport
    ∷ flag Valued.fingerprint
    ∷ s.certificate_fingerprint
    ∷ flag Valued.repeat
    ∷ to_decimal s.repeat
    ∷ (optional Valued.sql s.sql
        ++ (optional Valued.file s.file ++ no_verify_if s.validate_certificate))

argument-flag : (v : Valued) → argument (flag v) ≡ Argument.valued v
unfolding argument
argument-flag Valued.dsn = refl
argument-flag Valued.user = refl
argument-flag Valued.password = refl
argument-flag Valued.schema = refl
argument-flag Valued.transport = refl
argument-flag Valued.repeat = refl
argument-flag Valued.fingerprint = refl
argument-flag Valued.sql = refl
argument-flag Valued.file = refl

parse_from-flag :
    (v : Valued) (value : Text) (s s' : Settings) (rest : List Text)
    → set_value v value s ≡ Parsed.parsed s'
    → parse_from s (flag v ∷ value ∷ rest) ≡ parse_from s' rest
unfolding parse_from
parse_from-flag v value s s' rest e = rw (argument-flag v, parse_from) (rw (e, set_value))

parse_from-sql :
    (s : Settings) (o : Option Text) (rest : List Text)
    → s.sql ≡ none
    → parse_from s (optional Valued.sql o ++ rest) ≡ parse_from (record s { sql = o }) rest
unfolding set_value
parse_from-sql s none rest e = ap (λ o. parse_from (record s { sql = o }) rest) e
parse_from-sql s (some value) rest e =
    parse_from-flag Valued.sql value s (record s { sql = some value }) rest refl

parse_from-file :
    (s : Settings) (o : Option Text) (rest : List Text)
    → s.file ≡ none
    → parse_from s (optional Valued.file o ++ rest) ≡ parse_from (record s { file = o }) rest
unfolding set_value
parse_from-file s none rest e = ap (λ o. parse_from (record s { file = o }) rest) e
parse_from-file s (some value) rest e =
    parse_from-flag Valued.file value s (record s { file = some value }) rest refl

parse_from-no_verify :
    (s : Settings) (validate : Bool)
    → s.validate_certificate ≡ true
    → parse_from s (no_verify_if validate)
      ≡ Parsed.parsed (record s { validate_certificate = validate })
unfolding parse_from argument
parse_from-no_verify s true e = ap (λ v. Parsed.parsed (record s { validate_certificate = v })) e
parse_from-no_verify s false e = refl

set_value-repeat :
    (s : Settings) (n : ℕ)
    → n < 2 ^ 64
    → set_value Valued.repeat (to_decimal n) s ≡ Parsed.parsed (record s { repeat = n })
unfolding set_value
set_value-repeat s n h = rw (parse_unsigned-to_decimal (2 ^ 64) n h, set_value)

-- The settings of which only the text options are given.
abbrev texts_of : Settings → Settings
texts_of s = record default_settings {
  dsn = s.dsn;
  user = s.user;
  password = s.password;
  schema = s.schema;
  transport = s.transport;
  certificate_fingerprint = s.certificate_fingerprint;
}

texts_read :
    (s : Settings) (rest : List Text)
    → parse_from default_settings (
        flag Valued.dsn
        ∷ s.dsn
        ∷ flag Valued.user
        ∷ s.user
        ∷ flag Valued.password
        ∷ s.password
        ∷ flag Valued.schema
        ∷ s.schema
        ∷ flag Valued.transport
        ∷ s.transport
        ∷ flag Valued.fingerprint
        ∷ s.certificate_fingerprint
        ∷ rest)
      ≡ parse_from (texts_of s) rest
unfolding parse_from argument set_value
texts_read s rest = refl

-- The arguments that stand for settings are read as these settings, whatever their texts, those of
-- other options among them, if the number of repeats has 64 bits.
pub parse_from-arguments_of :
    (s : Settings)
    → s.repeat < 2 ^ 64
    → parse_from default_settings (arguments_of s) ≡ Parsed.parsed s
unfolding arguments_of
parse_from-arguments_of s h =
    let choices =
      optional Valued.sql s.sql
      ++ (optional Valued.file s.file ++ no_verify_if s.validate_certificate) in
    let with_repeat = record (texts_of s) { repeat = s.repeat } in
    texts_read s (flag Valued.repeat ∷ to_decimal s.repeat ∷ choices)
    ∙ parse_from-flag Valued.repeat (to_decimal s.repeat) (texts_of s) with_repeat choices
        (set_value-repeat (texts_of s) s.repeat h)
    ∙ parse_from-sql with_repeat s.sql
        (optional Valued.file s.file ++ no_verify_if s.validate_certificate) refl
    ∙ parse_from-file (record with_repeat { sql = s.sql }) s.file
        (no_verify_if s.validate_certificate) refl
    ∙ parse_from-no_verify (record with_repeat { sql = s.sql; file = s.file })
        s.validate_certificate refl
