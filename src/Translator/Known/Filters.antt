-- ===== src/Translator/Known/Filters.antt =====
-- The filters of a client's query that its replacement keeps: `extract_in_filter` and its kin of
-- src/translator.rs, and the table of a regclass literal.
use exa_postgres_interface.Base.{
  ℕ, zero, suc, ◌==◌, true, false, List, [], ◌∷◌, ◌++◌, reverse, Option, none, some, if◌then◌else◌,
}
use exa_postgres_interface.Base.Text.{
  Text, codes, is_empty, trim, replace_char, strip_prefix, text_length,
}
use exa_postgres_interface.Policy.Regexes.{Regexes}
use exa_postgres_interface.Translator.Patterns.{regclass_string_re}

-- `cap[1]` of the leftmost match.
abbrev pub first_group : Regexes → Text → Text → Option Text
first_group r pattern sql = elim (r.captures pattern sql) [
  | none ↦ none
  | some group ↦ group (codes "1")
]

abbrev pub filter_with : (Text → Text) → Option Text → Text
filter_with f none = []
filter_with f (some values) = f values

unfoldable pub extract_in_filter : Regexes → Text → Text → Text → Text
unfolding trim
extract_in_filter r sql source_column target_column =
    let pattern = codes "(?is)\\b" ++ (r.escape source_column ++ codes "\\s+IN\\s*\\(([^)]*)\\)") in
    filter_with
      (λ values. codes " AND " ++ (target_column ++ (codes " IN (" ++ (trim values ++ codes ")"))))
      (first_group r pattern sql)

unfoldable pub extract_eq_filter : Regexes → Text → Text → Text → Text
unfolding trim
extract_eq_filter r sql source_column target_column =
    let pattern =
      codes "(?is)\\b"
      ++ (r.escape source_column ++ codes "\\s*=\\s*('(?:''|[^'])*'|[A-Za-z_][A-Za-z0-9_.]*)") in
    filter_with (λ value. codes " AND " ++ (target_column ++ (codes " = " ++ trim value)))
      (first_group r pattern sql)

unfoldable pub extract_in_or_eq_filter : Regexes → Text → Text → Text → Text
unfolding extract_in_filter extract_eq_filter
extract_in_or_eq_filter r sql source_column target_column =
    let filter = extract_in_filter r sql source_column target_column in
    if is_empty filter then extract_eq_filter r sql source_column target_column else filter

unfoldable pub extract_like_filter : Regexes → Text → Text → Text → Option Text
unfolding trim
extract_like_filter r sql source_column target_column =
    let pattern =
      codes "(?is)\\b" ++ (r.escape source_column ++ codes "\\s+LIKE\\s+('(?:''|[^'])*')") in
    elim (first_group r pattern sql) [
      | none ↦ none
      | some value ↦ some (target_column ++ (codes " LIKE " ++ trim value))
    ]

-- `split('.')`.
abbrev pub parts_from : Text → Text → List Text
parts_from current [] = reverse current ∷ []
parts_from current (c ∷ s) = elim (c == b'.') [
  | true ↦ reverse current ∷ parts_from [] s
  | false ↦ parts_from (c ∷ current) s
]

abbrev pub not_empty : Text → Option Text
not_empty [] = none
not_empty (c ∷ s) = some (c ∷ s)

-- The last part and the part before it: `parts.pop()`, twice.
abbrev pub popped : List Text → Option (Option Text × Text)
popped [] = none
popped (table ∷ []) = elim (not_empty table) [ none ↦ none | some t ↦ some (none, t) ]
popped (table ∷ schema ∷ more) = elim (not_empty table) [
  | none ↦ none
  | some t ↦ some (not_empty schema, t)
]

unfoldable pub regclass_schema_table : Regexes → Text → Option (Option Text × Text)
unfolding replace_char
regclass_schema_table r sql = elim (first_group r regclass_string_re sql) [
  | none ↦ none
  | some raw ↦ popped (reverse (parts_from [] (replace_char b'"' [] raw)))
]

-- `trim_start_matches`: the prefix is taken off as often as it stands there. The length of the text is
-- enough, since the prefix is not empty.
abbrev pub trim_start_from : ℕ → Text → Text → Text
trim_start_from zero prefix s = s
trim_start_from (suc more) prefix s = elim (strip_prefix prefix s) [
  | none ↦ s
  | some rest ↦ trim_start_from more prefix rest
]

abbrev pub trim_start_matches : Text → Text → Text
trim_start_matches s prefix = trim_start_from (text_length s) prefix s

abbrev pub trim_end_matches : Text → Text → Text
trim_end_matches s suffix = reverse (trim_start_matches (reverse s) (reverse suffix))
