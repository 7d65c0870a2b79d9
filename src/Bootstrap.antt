-- ===== src/Bootstrap.antt =====
-- src/bootstrap.rs: the installation of the catalog. The prompts are in Prompts and Interactive.
pub mod Escape
pub mod Preview
pub mod Counts
pub mod Prompts
pub mod Interactive
use exa_postgres_interface.Base.{
  ℕ, ◌≤◌, Bool, true, false, not, ◌&&◌, ◌||◌, ◌==◌, leb, if◌then◌else◌, List, [], ◌∷◌, ◌++◌,
  reverse, Option, none, some, length, take, drop, ◌^◌,
}
use exa_postgres_interface.Base.Int.{ℤ, pos, negsuc}
use exa_postgres_interface.Base.Text.{
  Text, codes, text_eq, is_empty, trim, trim_end_while, starts_with, ends_with, contains,
  to_ascii_uppercase, split_whitespace, split_once, replace_char, parse_i64, show_ℤ,
}
use exa_postgres_interface.Crates.{Crates}
use exa_postgres_interface.Exasol.{ExasolError, ExasolResult}
use exa_postgres_interface.Session.{ExasolOutcome}

-- `join`.
abbrev pub join : Text → List Text → Text
join sep [] = []
join sep (s ∷ []) = s
join sep (s ∷ t ∷ ts) = s ++ sep ++ join sep (t ∷ ts)

-- `str::lines`: a line ends at a line feed, with a carriage return before it.
abbrev end_line : Text → Text
end_line [] = []
end_line (c ∷ current) = reverse (if c == 13 then current else c ∷ current)

abbrev lines_from : List Text → Text → Text → List Text
lines_from done [] [] = reverse done
lines_from done (c ∷ current) [] = reverse (reverse (c ∷ current) ∷ done)
lines_from done current (c ∷ s) =
    lines_from (if c == 10 then end_line current ∷ done else done)
      (if c == 10 then [] else c ∷ current) s

unfoldable pub lines : Text → List Text
lines s = lines_from [] [] s

-- The loop of `split_exasol_sql`; both lists are backwards.
pub record Splitter : Type 0 where
  pub statements : List Text
  pub buffer : List Text
  pub in_compound_statement : Bool

abbrev line_feed : Text
line_feed = 10 ∷ []

abbrev pub flush : List Text → Text → List Text
flush statements statement = if is_empty statement then statements else statement ∷ statements

-- A statement without the semicolons behind it.
unfoldable pub plain_statement : List Text → Text
unfolding trim
plain_statement buffer =
    trim (trim_end_while (λ c. c == b';') (trim (join line_feed (reverse buffer))))

unfoldable pub compound_statement : List Text → Text
unfolding trim
compound_statement buffer = trim (join line_feed (reverse (drop 1 buffer)))

unfoldable pub begins_compound : Text → Bool
unfolding to_ascii_uppercase contains
begins_compound stripped =
    let upper = to_ascii_uppercase stripped in
    let padded = codes " " ++ upper ++ codes " " in
    starts_with upper (codes "CREATE")
    && (contains padded (codes " FUNCTION ") || contains padded (codes " SCRIPT "))

abbrev is_nil : List Text → Bool
is_nil [] = true
is_nil (t ∷ ts) = false

unfoldable pub split_line : Splitter → Text → Splitter
unfolding trim begins_compound plain_statement compound_statement
split_line s raw_line =
    let stripped = trim raw_line in
    let buffer = raw_line ∷ s.buffer in
    let compound = s.in_compound_statement || begins_compound stripped in
    if text_eq stripped (codes "--/")
      || (is_nil s.buffer && (is_empty stripped || starts_with stripped (codes "--")))
    then s
    else if compound && text_eq stripped (codes "/")
    then record {
      statements = flush s.statements (compound_statement buffer);
      buffer = [];
      in_compound_statement = false;
    }
    else if not compound && ends_with stripped (codes ";")
    then record {
      statements = flush s.statements (plain_statement buffer);
      buffer = [];
      in_compound_statement = compound;
    }
    else record { statements = s.statements; buffer = buffer; in_compound_statement = compound }

abbrev pub split_lines : Splitter → List Text → Splitter
split_lines s [] = s
split_lines s (line ∷ rest) = split_lines (split_line s line) rest

unfoldable pub split_exasol_sql : Text → List Text
unfolding lines split_line plain_statement
split_exasol_sql sql_text =
    let s =
      split_lines (record { statements = []; buffer = []; in_compound_statement = false })
        (lines sql_text) in
    reverse (flush s.statements (plain_statement s.buffer))

unfoldable pub preview_statement : Text → Text
unfolding split_whitespace
preview_statement sql =
    let one_line = join (codes " ") (split_whitespace sql) in
    if leb (length one_line) 80 then one_line else take 77 one_line ++ codes "..."

unfoldable pub toml_escape : Text → Text
unfolding replace_char
toml_escape value = replace_char b'"' (codes "\\\"") (replace_char b'\\' (codes "\\\\") value)

-- The message of the error is shorter than the source's: it does not quote the text or say what the
-- number reader says.
unfoldable pub parse_count_string : Text → ExasolResult ℤ
unfolding trim split_once parse_i64
parse_count_string rendered =
    let trimmed = trim rendered in
    let integer_part : Text = elim (split_once (codes ".") trimmed) [
      | none ↦ trimmed
      | some (head, _) ↦ head
    ] in
    elim (parse_i64 integer_part) [
      | some value ↦ ExasolResult.ok value
      | none ↦ ExasolResult.err (
          ExasolError.execution
            (codes "cannot parse schema check value " ++ rendered ++ codes " as integer"))
    ]

-- The first column of a batch of the crate arrow: none, a null in its first row, a 64-bit integer
-- there, or a value of another type, printed.
pub data FirstColumn : Type 0 where
  missing null : FirstColumn
  int64 : ℤ → FirstColumn
  other : ExasolResult Text → FirstColumn

abbrev failed {ℓ} : {A : Type ℓ} → Text → ExasolResult A
failed message = ExasolResult.err (ExasolError.execution message)

module _ (k : Crates) (first_column : k.RecordBatch → FirstColumn) where
  unfoldable pub read_first_scalar_as_i64 : k.RecordBatch → ExasolResult ℤ
  unfolding parse_count_string
  read_first_scalar_as_i64 batch = elim (k.num_rows batch == 0) [
    | true ↦ failed (codes "schema check result set was empty")
    | false ↦ elim (first_column batch) [
      | FirstColumn.missing ↦ failed (codes "schema check result set had no columns")
      | FirstColumn.null ↦ failed (codes "schema check returned a NULL count")
      | FirstColumn.int64 value ↦ ExasolResult.ok value
      | FirstColumn.other rendered ↦ elim rendered [
        | ExasolResult.err e ↦ ExasolResult.err e
        | ExasolResult.ok t ↦ parse_count_string t
      ]
    ]
  ]

  unfoldable pub count_value : ExasolOutcome k → ExasolResult ℤ
  unfolding read_first_scalar_as_i64 parse_count_string
  count_value (ExasolOutcome.arrow_rows []) =
      failed (codes "schema check returned no result batches")
  count_value (ExasolOutcome.arrow_rows (batch ∷ _)) = read_first_scalar_as_i64 batch
  count_value (ExasolOutcome.typed_rows [] rows) =
      failed (codes "schema check result set had no columns")
  count_value (ExasolOutcome.typed_rows (_ ∷ _) []) =
      failed (codes "schema check result set was empty")
  count_value (ExasolOutcome.typed_rows (_ ∷ _) ([] ∷ _)) =
      failed (codes "schema check result set was empty")
  count_value (ExasolOutcome.typed_rows (_ ∷ _) ((none ∷ _) ∷ _)) =
      failed (codes "schema check returned a NULL count")
  count_value (ExasolOutcome.typed_rows (_ ∷ _) ((some rendered ∷ _) ∷ _)) =
      parse_count_string rendered
  count_value (ExasolOutcome.row_count _) =
      failed (codes "schema check returned row count instead of result set")

  unfoldable pub first_count : ExasolOutcome k → ExasolResult ℕ
  unfolding count_value show_ℤ
  first_count outcome = elim (count_value outcome) [
    | ExasolResult.err e ↦ ExasolResult.err e
    | ExasolResult.ok value ↦ elim value [
      | pos n ↦ ExasolResult.ok n
      | negsuc n ↦
          failed (codes "schema check returned negative count value: " ++ show_ℤ (negsuc n))
    ]
  ]

-- A session with the database, and the scripts that are run on it.
module _ (k : Crates) {W : Type 0} (execute : W → Text → W × ExasolResult (ExasolOutcome k)) where
  unfoldable pub installed_schema_count : (k.RecordBatch → FirstColumn) → W → W × ExasolResult ℕ
  unfolding first_count
  installed_schema_count first_column w =
      let (w', answer) = execute w (
        codes
          "SELECT COUNT(*) FROM SYS.EXA_SCHEMAS WHERE SCHEMA_NAME IN ('PG_CATALOG', 'INFORMATION_SCHEMA')") in
      (
        w',
        elim answer [
          | ExasolResult.err e ↦ ExasolResult.err e
          | ExasolResult.ok outcome ↦ first_count k first_column outcome
        ],
      )

  -- The loop of `execute_exasol_script`: the first statement that fails ends it.
  unfoldable pub execute_each : W → List Text → W × ExasolResult (Unit {0})
  execute_each w [] = (w, ExasolResult.ok tt)
  execute_each w (statement ∷ rest) =
      let (w', answer) = execute w statement in
      elim answer [
        | ExasolResult.err e ↦ (w', ExasolResult.err e)
        | ExasolResult.ok _ ↦ execute_each w' rest
      ]

  unfoldable pub execute_exasol_script : W → Text → W × ExasolResult (Unit {0})
  unfolding split_exasol_sql execute_each
  execute_exasol_script w sql_text = execute_each w (split_exasol_sql sql_text)
