-- ===== src/Programs/Exec.antt =====
-- src/bin/exasol_exec.rs: its arguments, the checks on them, the configuration that they make and the
-- rows of an outcome. The benchmark measures times, and what is printed is left out.
use exa_postgres_interface.Base.{
  ℕ, ◌+◌, ◌^◌, Bool, true, false, ◌||◌, List, [], ◌∷◌, ◌++◌, Option, none, some, length,
  if◌then◌else◌,
}
use exa_postgres_interface.Base.Text.{Text, codes, text_eq, is_empty, parse_unsigned}
use exa_postgres_interface.Crates.{Crates}
use exa_postgres_interface.Exasol.{ExasolConfig}
use exa_postgres_interface.Programs.Server.{Parsed, unknown_argument}
use exa_postgres_interface.Session.{ExasolOutcome}

-- The variables of `main`.
pub record Settings : Type 0 where
  pub dsn : Text
  pub user : Text
  pub password : Text
  pub schema : Text
  pub certificate_fingerprint : Text
  pub validate_certificate : Bool
  pub sql : Option Text
  pub file : Option Text
  pub transport : Text
  pub repeat : ℕ

abbrev pub default_transport : Text
default_transport = codes "arrow"

abbrev pub default_settings : Settings
default_settings = record {
  dsn = [];
  user = [];
  password = [];
  schema = [];
  certificate_fingerprint = [];
  validate_certificate = true;
  sql = none;
  file = none;
  transport = default_transport;
  repeat = 1;
}

-- The options that a value follows.
pub data Valued : Type 0 where
  dsn user password schema transport repeat fingerprint sql file : Valued

abbrev pub flag : Valued → Text
flag Valued.dsn = codes "--dsn"
flag Valued.user = codes "--user"
flag Valued.password = codes "--password"
flag Valued.schema = codes "--schema"
flag Valued.transport = codes "--transport"
flag Valued.repeat = codes "--repeat"
flag Valued.fingerprint = codes "--fingerprint"
flag Valued.sql = codes "--sql"
flag Valued.file = codes "--file"

pub data Argument : Type 0 where
  valued : Valued → Argument
  no_verify asks_help : Argument
  other : Text → Argument

abbrev valued_options : List Valued
valued_options =
    Valued.dsn ∷ Valued.user ∷ Valued.password ∷ Valued.schema ∷ Valued.transport ∷ Valued.repeat
    ∷ Valued.fingerprint ∷ Valued.sql ∷ Valued.file ∷ []

abbrev find_option : Text → List Valued → Option Valued
find_option arg [] = none
find_option arg (v ∷ vs) = elim (text_eq arg (flag v)) [
  | true ↦ some v
  | false ↦ find_option arg vs
]

-- The `match` on an argument.
unfoldable pub argument : Text → Argument
argument arg = elim (find_option arg valued_options) [
  | some v ↦ Argument.valued v
  | none ↦
      if text_eq arg (codes "--no-verify")
      then Argument.no_verify
      else if text_eq arg (codes "--help") || text_eq arg (codes "-h")
      then Argument.asks_help
      else Argument.other arg
]

-- What an option does with its value; only the number of repeats can be refused.
unfoldable pub set_value : Valued → Text → Settings → Parsed Settings
unfolding parse_unsigned
set_value Valued.dsn value s = Parsed.parsed (record s { dsn = value })
set_value Valued.user value s = Parsed.parsed (record s { user = value })
set_value Valued.password value s = Parsed.parsed (record s { password = value })
set_value Valued.schema value s = Parsed.parsed (record s { schema = value })
set_value Valued.transport value s = Parsed.parsed (record s { transport = value })
set_value Valued.repeat value s = elim (parse_unsigned (2 ^ 64) value) [
  | none ↦ Parsed.refused (codes "invalid number")
  | some n ↦ Parsed.parsed (record s { repeat = n })
]
set_value Valued.fingerprint value s = Parsed.parsed (record s { certificate_fingerprint = value })
set_value Valued.sql value s = Parsed.parsed (record s { sql = some value })
set_value Valued.file value s = Parsed.parsed (record s { file = some value })

-- `required_value` where no argument is left.
abbrev pub missing_value : {A : Type 0} → Valued → Parsed A
missing_value v = Parsed.refused (codes "missing value for " ++ flag v)

-- The loop over the arguments.
unfoldable pub parse_from : Settings → List Text → Parsed Settings
unfolding argument set_value
parse_from s [] = Parsed.parsed s
parse_from s (arg ∷ []) = elim (argument arg) [
  | Argument.valued v ↦ missing_value v
  | Argument.no_verify ↦ Parsed.parsed (record s { validate_certificate = false })
  | Argument.asks_help ↦ Parsed.help
  | Argument.other text ↦ unknown_argument text
]
parse_from s (arg ∷ value ∷ rest) = elim (argument arg) [
  | Argument.valued v ↦ elim (set_value v value s) [
    | Parsed.parsed s' ↦ parse_from s' rest
    | Parsed.help ↦ Parsed.help
    | Parsed.refused message ↦ Parsed.refused message
  ]
  | Argument.no_verify ↦ parse_from (record s { validate_certificate = false }) (value ∷ rest)
  | Argument.asks_help ↦ Parsed.help
  | Argument.other text ↦ unknown_argument text
]

-- Where the statement comes from.
pub data Source : Type 0 where
  given : Text → Source
  in_file : (path : Text) → Source

abbrev pub source_of : Option Text → Option Text → Parsed Source
source_of (some text) none = Parsed.parsed (Source.given text)
source_of none (some path) = Parsed.parsed (Source.in_file path)
source_of (some _) (some _) = Parsed.refused (codes "pass either --sql or --file, not both")
source_of none none = Parsed.refused (codes "required: --sql or --file")

-- The checks behind the loop.
unfoldable pub check_settings : Settings → Parsed Source
check_settings s =
    if is_empty s.dsn || is_empty s.user || is_empty s.password
    then Parsed.refused (codes "required: --dsn --user --password")
    else source_of s.sql s.file

unfoldable pub exec_config : Settings → ExasolConfig
exec_config s = record {
  dsn = s.dsn;
  encryption = true;
  certificate_fingerprint = s.certificate_fingerprint;
  validate_certificate = s.validate_certificate;
  pass_client_credentials = true;
  schema = s.schema;
  transport = s.transport;
}

module _ (k : Crates) where
  abbrev pub batch_rows : List k.RecordBatch → ℕ
  batch_rows [] = 0
  batch_rows (batch ∷ batches) = k.num_rows batch + batch_rows batches

  unfoldable pub rows_in : ExasolOutcome k → ℕ
  rows_in (ExasolOutcome.row_count _) = 0
  rows_in (ExasolOutcome.arrow_rows batches) = batch_rows batches
  rows_in (ExasolOutcome.typed_rows columns rows) = length rows
