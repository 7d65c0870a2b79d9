-- ===== src/Bootstrap/Prompts.antt =====
-- The prompts of src/bootstrap.rs. The terminal's input is a list of lines; a read may fail, and at
-- the end of the input it gives an empty line. What is printed is left out. The loops take a unit of
-- fuel for each line; `none` is a loop that did not end.
use exa_postgres_interface.Base.{
  ℕ, zero, suc, ◌<◌, ◌^◌, Bool, true, false, ◌||◌, List, [], ◌∷◌, ◌++◌, length, Option, none, some,
  if◌then◌else◌, Option-cases, inl, inr, ◌≡◌, refl, arith,
}
use exa_postgres_interface.Base.Text.{
  Text, codes, text_eq, is_empty, trim, to_ascii_lowercase, parse_unsigned,
}
use exa_postgres_interface.Bootstrap.{toml_escape}
use exa_postgres_interface.Exasol.Endpoint.{Checked}

abbrev pub Input : Type 0
Input = List (Checked Text)

unfoldable pub prompt_optional : Input → Input × Checked Text
unfolding trim
prompt_optional [] = ([], Checked.valid [])
prompt_optional (Checked.invalid message ∷ input) = (input, Checked.invalid message)
prompt_optional (Checked.valid line ∷ input) = (input, Checked.valid (trim line))

abbrev pub or_default : Text → Checked Text → Checked Text
unfolding trim
or_default default (Checked.invalid message) = Checked.invalid message
or_default default (Checked.valid value) =
    Checked.valid (if is_empty (trim value) then default else value)

unfoldable pub prompt_with_default : Text → Input → Input × Checked Text
unfolding prompt_optional or_default
prompt_with_default default input =
    let (input', value) = prompt_optional input in (input', or_default default value)

unfoldable pub prompt_required : ℕ → Input → Option (Input × Checked Text)
unfolding prompt_optional trim
prompt_required zero input = none
prompt_required (suc fuel) input =
    let (input', answer) = prompt_optional input in
    elim answer [
      | Checked.invalid message ↦ some (input', Checked.invalid message)
      | Checked.valid value ↦ elim (is_empty (trim value)) [
        | false ↦ some (input', Checked.valid value)
        | true ↦ prompt_required fuel input'
      ]
    ]

-- What an answer means, if it is one.
unfoldable pub yes_or_no : Bool → Text → Option Bool
unfolding to_ascii_lowercase
yes_or_no default value =
    if is_empty value
    then some default
    else if text_eq (to_ascii_lowercase value) (codes "y")
        || text_eq (to_ascii_lowercase value) (codes "yes")
    then some true
    else if text_eq (to_ascii_lowercase value) (codes "n")
        || text_eq (to_ascii_lowercase value) (codes "no")
    then some false
    else none

unfoldable pub confirm : ℕ → Bool → Input → Option (Input × Checked Bool)
unfolding prompt_optional yes_or_no
confirm zero default input = none
confirm (suc fuel) default input =
    let (input', answer) = prompt_optional input in
    elim answer [
      | Checked.invalid message ↦ some (input', Checked.invalid message)
      | Checked.valid value ↦ elim (yes_or_no default value) [
        | some choice ↦ some (input', Checked.valid choice)
        | none ↦ confirm fuel default input'
      ]
    ]

-- The loop of `prompt_config` on the port.
unfoldable pub prompt_port : ℕ → Input → Option (Input × Checked Text)
unfolding prompt_with_default parse_unsigned
prompt_port zero input = none
prompt_port (suc fuel) input =
    let (input', answer) = prompt_with_default (codes "15432") input in
    elim answer [
      | Checked.invalid message ↦ some (input', Checked.invalid message)
      | Checked.valid value ↦ elim (parse_unsigned (2 ^ 16) value) [
        | some _ ↦ some (input', Checked.valid value)
        | none ↦ prompt_port fuel input'
      ]
    ]

-- A question that is asked about the input, and what comes of it.
abbrev pub Asked : Type 0 → Type 0
Asked A = Input → Option (Input × Checked A)

abbrev pub once : {A : Type 0} → (Input → Input × Checked A) → Asked A
once f input = some (f input)

infixl 5 ◌>>=◌
abbrev pub ◌>>=◌ : {A B : Type 0} → Asked A → (A → Asked B) → Asked B
◌>>=◌ m f input = elim (m input) [
  | none ↦ none
  | some (input', answer) ↦ elim answer [
    | Checked.invalid message ↦ some (input', Checked.invalid message)
    | Checked.valid a ↦ f a input'
  ]
]

abbrev pub answer : {A : Type 0} → A → Asked A
answer a input = some (input, Checked.valid a)

-- The answers from which the configuration is written.
pub record Answers : Type 0 where
  pub listen_host : Text
  pub listen_port : Text
  pub log_level : Text
  pub dsn : Text
  pub encryption : Bool
  pub certificate_fingerprint : Text
  pub validate_certificate : Bool
  pub schema : Text

abbrev show_bool : Bool → Text
show_bool true = codes "true"
show_bool false = codes "false"

unfoldable pub config_text : Answers → Text
unfolding toml_escape trim
config_text a =
    codes "[server]\nlisten_host = \""
    ++ (toml_escape a.listen_host
        ++ (codes "\"\nlisten_port = "
            ++ (trim a.listen_port
                ++ (codes "\nlog_level = \""
                    ++ (toml_escape a.log_level
                        ++ (codes "\"\n\n[exasol]\ndsn = \""
                            ++ (toml_escape a.dsn
                                ++ (codes "\"\nencryption = "
                                    ++ (show_bool a.encryption
                                        ++ (codes "\ncertificate_fingerprint = \""
                                            ++ (toml_escape a.certificate_fingerprint
                                                ++ (codes "\"\nvalidate_certificate = "
                                                    ++ (show_bool a.validate_certificate
                                                        ++ (codes
                                                            "\npass_client_credentials = true\nschema = \""
                                                            ++ (toml_escape a.schema
                                                            ++ codes
                                                            "\"\n\n[translation]\nenabled = true\n")))))))))))))))

unfoldable pub prompt_config : ℕ → Asked Text
unfolding prompt_optional prompt_with_default prompt_port prompt_required confirm config_text
prompt_config fuel = do
  listen_host ← once (prompt_with_default (codes "0.0.0.0"))
  listen_port ← prompt_port fuel
  log_level ← once (prompt_with_default (codes "INFO"))
  dsn ← prompt_required fuel
  encryption ← confirm fuel true
  certificate_fingerprint ← once prompt_optional
  validate_certificate ←
      (if is_empty certificate_fingerprint then confirm fuel true else answer true)
  schema ← once prompt_optional
  answer (
      config_text (record {
        listen_host = listen_host;
        listen_port = listen_port;
        log_level = log_level;
        dsn = dsn;
        encryption = encryption;
        certificate_fingerprint = certificate_fingerprint;
        validate_certificate = validate_certificate;
        schema = schema;
      }))

-- A question to be confirmed ends with the input at the latest, where the default is taken.
pub confirm_total :
    (fuel : ℕ) (default : Bool) (input : Input)
    → length input < fuel
    → (result : Input × Checked Bool) × (confirm fuel default input ≡ some result)
unfolding confirm prompt_optional yes_or_no
confirm_total zero default input h = absurd (omega arith)
confirm_total (suc fuel) default [] h = (([], Checked.valid default), refl)
confirm_total (suc fuel) default (Checked.invalid message ∷ input) h =
    ((input, Checked.invalid message), refl)
confirm_total (suc fuel) default (Checked.valid line ∷ input) h =
    elim (Option-cases (yes_or_no default (trim line))) [
      | inl e ↦
          let (result, f) = confirm_total fuel default input (omega arith) in
          (result, rw (e, confirm) f)
      | inr (choice, e) ↦ ((input, Checked.valid choice), rw (e, confirm) refl)
    ]

-- A required answer is asked for without end where the input has ended.
pub prompt_required_unending : (fuel : ℕ) → prompt_required fuel [] ≡ none
unfolding prompt_required prompt_optional
prompt_required_unending zero = refl
prompt_required_unending (suc fuel) = prompt_required_unending fuel
