-- ===== src/Programs/Server.antt =====
-- `parse_args` of src/main.rs.
use exa_postgres_interface.Base.{true, false, List, [], ◌∷◌, ◌++◌, Option, none, some}
use exa_postgres_interface.Base.Text.{Text, codes, text_eq}

pub data BootstrapMode : Type 0 where
  interactive skip : BootstrapMode

pub record CliArgs : Type 0 where
  pub config_path : Option Text
  pub bootstrap_mode : BootstrapMode

-- What comes of reading arguments: a result, the help text and the end, or an error.
pub data Parsed (A : Type 0) : Type 0 where
  parsed : A → Parsed A
  help : Parsed A
  refused : (message : Text) → Parsed A

abbrev pub unknown_argument : {A : Type 0} → Text → Parsed A
unknown_argument other = Parsed.refused (codes "unknown argument: " ++ other)

pub data ServerArgument : Type 0 where
  config no_bootstrap asks_help : ServerArgument
  other : Text → ServerArgument

abbrev pub server_argument : Text → ServerArgument
server_argument arg = elim (text_eq arg (codes "--config")) [
  | true ↦ ServerArgument.config
  | false ↦ elim (text_eq arg (codes "--no-bootstrap")) [
    | true ↦ ServerArgument.no_bootstrap
    | false ↦ elim (text_eq arg (codes "--help")) [
      | true ↦ ServerArgument.asks_help
      | false ↦ elim (text_eq arg (codes "-h")) [
        | true ↦ ServerArgument.asks_help
        | false ↦ ServerArgument.other arg
      ]
    ]
  ]
]

-- The loop of `parse_args`; the value of `--config` is the argument behind it.
abbrev pub parse_args_from : CliArgs → List Text → Parsed CliArgs
parse_args_from args [] = Parsed.parsed args
parse_args_from args (arg ∷ []) = elim (server_argument arg) [
  | ServerArgument.config ↦ Parsed.refused (codes "missing value for --config")
  | ServerArgument.no_bootstrap ↦
      Parsed.parsed (record args { bootstrap_mode = BootstrapMode.skip })
  | ServerArgument.asks_help ↦ Parsed.help
  | ServerArgument.other text ↦ unknown_argument text
]
parse_args_from args (arg ∷ value ∷ rest) = elim (server_argument arg) [
  | ServerArgument.config ↦ parse_args_from (record args { config_path = some value }) rest
  | ServerArgument.no_bootstrap ↦
      parse_args_from (record args { bootstrap_mode = BootstrapMode.skip }) (value ∷ rest)
  | ServerArgument.asks_help ↦ Parsed.help
  | ServerArgument.other text ↦ unknown_argument text
]

-- `parse_args`, of the arguments behind the name of the program.
unfoldable pub parse_args : List Text → Parsed CliArgs
parse_args args =
    parse_args_from (record { config_path = none; bootstrap_mode = BootstrapMode.interactive }) args
