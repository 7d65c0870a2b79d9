-- ===== src/Bootstrap/Interactive.antt =====
-- `run_interactive_bootstrap` and `ensure_config_file` of src/bootstrap.rs over the terminal's input, the
-- database and the files. What is printed is left out.
use exa_postgres_interface.Base.{
  ℕ, Bool, true, false, ◌==◌, ltb, ◌++◌, Option, none, some, if◌then◌else◌,
}
use exa_postgres_interface.Base.Text.{Text, codes, text_eq, is_empty, trim, to_ascii_uppercase}
use exa_postgres_interface.Bootstrap.{
  FirstColumn, first_count, installed_schema_count, execute_exasol_script,
}
use exa_postgres_interface.Bootstrap.Prompts.{Input, prompt_with_default, confirm, prompt_config}
use exa_postgres_interface.Crates.{Crates}
use exa_postgres_interface.Exasol.{ExasolResult, ExasolConfig, AppConfig, display}
use exa_postgres_interface.Exasol.Endpoint.{Checked}
use exa_postgres_interface.Session.{ExasolOutcome}

-- The world with the terminal's input, what comes of a step, and steps that do not end.
abbrev pub Step : Type 0 → Type 0 → Type 0
Step W A = W × Input → Option ((W × Input) × Checked A)

infixl 5 ◌>>=◌ ◌>>◌
abbrev pub ◌>>=◌ : {W A B : Type 0} → Step W A → (A → Step W B) → Step W B
◌>>=◌ m f s = elim (m s) [
  | none ↦ none
  | some (s', answer) ↦ elim answer [
    | Checked.invalid message ↦ some (s', Checked.invalid message)
    | Checked.valid a ↦ f a s'
  ]
]

abbrev pub ◌>>◌ : {W B : Type 0} → Step W (Unit {0}) → Step W B → Step W B
m >> k = m >>= λ _. k

abbrev pub done : {W A : Type 0} → A → Step W A
done a s = some (s, Checked.valid a)

abbrev pub refuse : {W A : Type 0} → Text → Step W A
refuse message s = some (s, Checked.invalid message)

abbrev pub asks : {W A : Type 0} → (Input → Option (Input × Checked A)) → Step W A
asks f (w, input) = elim (f input) [
  | none ↦ none
  | some (input', answer) ↦ some ((w, input'), answer)
]

abbrev pub reads : {W A : Type 0} → (Input → Input × Checked A) → Step W A
reads f (w, input) = let (input', answer) = f input in some ((w, input'), answer)

abbrev checked {ℓ} : {A : Type ℓ} → ExasolResult A → Checked A
unfolding display
checked (ExasolResult.ok a) = Checked.valid a
checked (ExasolResult.err e) = Checked.invalid (display e)

abbrev pub runs : {W A : Type 0} → (W → W × ExasolResult A) → Step W A
unfolding checked
runs f (w, input) = let (w', answer) = f w in some ((w', input), checked answer)

-- The database, the scripts that are part of the program, and the reading of a password.
pub record Setup (k : Crates) (W : Type 0) : Type 1 where
  pub is_terminal : Bool
  pub connect : ExasolConfig → Text → Text → W → W × ExasolResult (Unit {0})
  pub execute : W → Text → W × ExasolResult (ExasolOutcome k)
  pub first_column : k.RecordBatch → FirstColumn
  pub catalog_sql : Text
  pub preprocessor_sql : Text
  pub prompt_password : Input → Input × Checked Text

module _ {k : Crates} {W : Type 0} (setup : Setup k W) where
  abbrev pub script_count : W → W × ExasolResult ℕ
  unfolding first_count
  script_count w =
      let (w', answer) = setup.execute w (
        codes
          "SELECT COUNT(*) FROM SYS.EXA_ALL_SCRIPTS WHERE SCRIPT_SCHEMA = 'PG_CATALOG' AND SCRIPT_NAME = 'PG_SQL_PREPROCESSOR'") in
      (
        w',
        elim answer [
          | ExasolResult.err e ↦ ExasolResult.err e
          | ExasolResult.ok outcome ↦ first_count k setup.first_column outcome
        ],
      )

  unfoldable pub ensure_optional_preprocessor : ℕ → Text → Step W (Unit {0})
  unfolding trim to_ascii_uppercase script_count confirm execute_exasol_script runs
  ensure_optional_preprocessor fuel configured_script =
      elim (text_eq (to_ascii_uppercase (trim configured_script))
        (codes "PG_CATALOG.PG_SQL_PREPROCESSOR")) [
          | false ↦ done tt
          | true ↦ runs script_count >>= λ count. elim (count == 1) [
            | true ↦ done tt
            | false ↦ asks (confirm fuel false) >>= λ agreed. elim agreed [
              | false ↦ done tt
              | true ↦ runs (λ w. execute_exasol_script k setup.execute w setup.preprocessor_sql)
            ]
          ]
        ]

  unfoldable pub install_catalog : Step W (Unit {0})
  unfolding execute_exasol_script runs
  install_catalog = runs (λ w. execute_exasol_script k setup.execute w setup.catalog_sql)

  abbrev pub if_agreed : Bool → Step W (Unit {0})
  unfolding install_catalog
  if_agreed agreed = if agreed then install_catalog else done tt

  abbrev pub optional_preprocessor : ℕ → Text → Step W (Unit {0})
  unfolding ensure_optional_preprocessor trim
  optional_preprocessor fuel script =
      if is_empty (trim script) then done tt else ensure_optional_preprocessor fuel script

  unfoldable pub run_interactive_bootstrap : ℕ → AppConfig → Step W (Unit {0})
  unfolding confirm prompt_with_default installed_schema_count optional_preprocessor if_agreed runs
  run_interactive_bootstrap fuel config = elim setup.is_terminal [
    | false ↦ done tt
    | true ↦ asks (confirm fuel true) >>= λ agreed. elim agreed [
      | false ↦ done tt
      | true ↦ do
        username ← reads (prompt_with_default (codes "sys"))
        password ← reads setup.prompt_password
        runs (
            setup.connect (record config.exasol { pass_client_credentials = true }) username
              password)
        schemas ← runs (installed_schema_count k setup.execute setup.first_column)
        install ← asks (confirm fuel (ltb schemas 2))
        if_agreed install
        optional_preprocessor fuel config.translation.sql_preprocessor_script
    ]
  ]

-- The files: whether a path is there, the making of the folders above it, and writing.
pub record Files (W : Type 0) : Type 0 where
  pub exists : W → Text → Bool
  pub create_parent : Text → W → W × Checked (Unit {0})
  pub write : Text → Text → W → W × Checked (Unit {0})

abbrev pub acts : {W A : Type 0} → (W → W × Checked A) → Step W A
acts f (w, input) = let (w', answer) = f w in some ((w', input), answer)

abbrev pub or_path : Option Text → Text
or_path none = codes "config/local.toml"
or_path (some path) = path

unfoldable pub ensure_config_file : {W : Type 0} → Files W → Bool → ℕ → Option Text → Step W Text
unfolding confirm prompt_config
ensure_config_file files is_terminal fuel requested_path (w, input) =
    let path = or_path requested_path in
    elim (files.exists w path) [
      | true ↦ done path (w, input)
      | false ↦ elim is_terminal [
        | false ↦
            refuse
              (codes "configuration file "
                ++ (path ++ codes " does not exist; run interactively once or pass --config"))
              (w, input)
        | true ↦
            (asks (confirm fuel true) >>= λ agreed. elim agreed [
              | false ↦ refuse (codes "configuration is required")
              | true ↦ do
                content ← asks (prompt_config fuel)
                acts (files.create_parent path)
                acts (files.write path content)
                done path
            ])
              (w, input)
      ]
    ]
