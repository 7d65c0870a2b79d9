-- ===== src/Translator/Detection.antt =====
-- The test for statements that pass to Exasol as they are: `is_exasol_passthrough_sql`, with
-- `strip_sql_comments_for_detection`, `normalize_for_match` and `contains_word`.
pub mod Steps
pub mod Words
pub mod Pieces
use exa_postgres_interface.Base.{
  ℕ, zero, suc, ◌-◌, ◌==◌, leb, Bool, true, false, not, ◌&&◌, ◌||◌, any, List, [], ◌∷◌, ◌++◌, head?,
  Option, none, some, if◌then◌else◌,
}
use exa_postgres_interface.Base.Text.{
  Text, codes, contains, starts_with, strip_prefix, text_length, to_ascii_lowercase,
  split_whitespace, is_ascii_digit,
}
use exa_postgres_interface.Bootstrap.{join}
use exa_postgres_interface.Policy.Regexes.{Regexes}

-- Where the loop of `strip_sql_comments_for_detection` stands: outside, in quotes, in a comment up to
-- the end of the line, or in a block comment behind the character given.
pub data Mode : Type 0 where
  outside single_quote double_quote line : Mode
  block : (previous : ℕ) → Mode

-- The mode behind a character that is not the start of a comment.
abbrev pub behind : ℕ → Mode
behind c = elim (c == b'\'') [
  | true ↦ Mode.single_quote
  | false ↦ elim (c == b'"') [ true ↦ Mode.double_quote | false ↦ Mode.outside ]
]

abbrev pub closed_by : ℕ → ℕ → Mode → Mode
closed_by quote c mode = elim (c == quote) [ true ↦ Mode.outside | false ↦ mode ]

abbrev pub strip_from : Mode → Text → Text
strip_from mode [] = []
strip_from Mode.outside (c ∷ []) = c ∷ []
strip_from Mode.outside (c ∷ d ∷ s) = elim (c == b'-' && d == b'-') [
  | true ↦ b' ' ∷ strip_from Mode.line s
  | false ↦ elim (c == b'/' && d == b'*') [
    | true ↦ b' ' ∷ strip_from (Mode.block 0) s
    | false ↦ c ∷ strip_from (behind c) (d ∷ s)
  ]
]
strip_from Mode.single_quote (c ∷ []) = c ∷ []
strip_from Mode.single_quote (c ∷ d ∷ s) = elim (c == b'\'' && d == b'\'') [
  | true ↦ c ∷ d ∷ strip_from Mode.single_quote s
  | false ↦ c ∷ strip_from (closed_by b'\'' c Mode.single_quote) (d ∷ s)
]
strip_from Mode.double_quote (c ∷ []) = c ∷ []
strip_from Mode.double_quote (c ∷ d ∷ s) = elim (c == b'"' && d == b'"') [
  | true ↦ c ∷ d ∷ strip_from Mode.double_quote s
  | false ↦ c ∷ strip_from (closed_by b'"' c Mode.double_quote) (d ∷ s)
]
strip_from Mode.line (c ∷ s) = elim (c == 10) [
  | true ↦ 10 ∷ strip_from Mode.outside s
  | false ↦ strip_from Mode.line s
]
strip_from (Mode.block previous) (c ∷ s) = elim (previous == b'*' && c == b'/') [
  | true ↦ strip_from Mode.outside s
  | false ↦ elim (c == 10) [
    | true ↦ 10 ∷ strip_from (Mode.block c) s
    | false ↦ strip_from (Mode.block c) s
  ]
]

unfoldable pub strip_sql_comments_for_detection : Text → Text
strip_sql_comments_for_detection sql = strip_from Mode.outside sql

unfoldable pub normalize_for_match : Text → Text
unfolding split_whitespace to_ascii_lowercase
normalize_for_match sql = to_ascii_lowercase (join (codes " ") (split_whitespace sql))

abbrev pub is_ident_char : ℕ → Bool
is_ident_char ch =
    is_ascii_digit ch || (leb b'a' ch && leb ch b'z') || (leb b'A' ch && leb ch b'Z') || ch == b'_'

abbrev pub is_ident : Option ℕ → Bool
is_ident none = false
is_ident (some ch) = is_ident_char ch

-- The loop of `contains_word`, behind the character `before`; `skip` characters of the last match are
-- still to be passed over.
abbrev pub contains_word_from : Text → ℕ → Option ℕ → Text → Bool
contains_word_from needle skip before [] = false
contains_word_from needle (suc skip) before (c ∷ s) = contains_word_from needle skip (some c) s
contains_word_from needle zero before (c ∷ s) = elim (strip_prefix needle (c ∷ s)) [
  | none ↦ contains_word_from needle zero (some c) s
  | some rest ↦ elim (not (is_ident before) && not (is_ident (head? rest))) [
    | true ↦ true
    | false ↦ contains_word_from needle (text_length needle - 1) (some c) s
  ]
]

unfoldable pub contains_word : Text → Text → Bool
contains_word haystack needle = contains_word_from needle 0 none haystack

abbrev pub regex_not_match_re : Text
regex_not_match_re = codes "(?i)([A-Za-z_][A-Za-z0-9_.]*|\"[^\"]+\")\\s*!~\\s*('(?:''|[^'])*')"

abbrev pub regex_match_re : Text
regex_match_re = codes "(?i)([A-Za-z_][A-Za-z0-9_.]*|\"[^\"]+\")\\s*~\\s*('(?:''|[^'])*')"

-- `CATALOG_RELATIONS`, here parted by blanks.
abbrev pub catalog_relations : List Text
catalog_relations = split_whitespace (
    codes
      "pg_aggregate pg_am pg_amop pg_amproc pg_available_extensions pg_attrdef pg_attribute pg_auth_members pg_authid pg_cast pg_class pg_collation pg_constraint pg_conversion pg_database pg_db_role_setting pg_default_acl pg_depend pg_description pg_enum pg_event_trigger pg_extension pg_foreign_data_wrapper pg_foreign_server pg_foreign_table pg_group pg_index pg_inherits pg_init_privs pg_language pg_largeobject pg_largeobject_metadata pg_locks pg_matviews pg_namespace pg_opclass pg_operator pg_opfamily pg_parameter_acl pg_partitioned_table pg_policy pg_proc pg_publication pg_publication_namespace pg_publication_rel pg_range pg_replication_origin pg_rewrite pg_roles pg_rules pg_sequences pg_seclabel pg_sequence pg_settings pg_shdepend pg_shdescription pg_shseclabel pg_stat_activity pg_stat_user_tables pg_statistic pg_statistic_ext pg_statistic_ext_data pg_subscription pg_subscription_rel pg_tables pg_tablespace pg_transform pg_trigger pg_ts_config pg_ts_config_map pg_ts_dict pg_ts_parser pg_ts_template pg_type pg_user pg_user_mapping pg_user_mappings pg_views")

abbrev pub postgres_specific_tokens : List Text
postgres_specific_tokens =
    codes "::"
    ∷ codes " ilike "
    ∷ codes " operator("
    ∷ codes " current_database("
    ∷ codes " current_catalog"
    ∷ codes " session_user"
    ∷ codes " current_schemas("
    ∷ codes " current_schema("
    ∷ codes " obj_description("
    ∷ codes " shobj_description("
    ∷ codes " col_description("
    ∷ codes " format_type("
    ∷ codes " oidvectortypes("
    ∷ codes " to_regclass("
    ∷ codes " unnest("
    ∷ codes " generate_series("
    ∷ codes " returning "
    ∷ codes " any("
    ∷ codes " array["
    ∷ codes " regexp_matches("
    ∷ codes " regexp_replace("
    ∷ codes " quote_ident("
    ∷ []

unfoldable pub is_exasol_passthrough_sql : Regexes → Text → Bool
unfolding strip_sql_comments_for_detection normalize_for_match contains contains_word
is_exasol_passthrough_sql r sql =
    let normalized = normalize_for_match (strip_sql_comments_for_detection sql) in
    let padded = codes " " ++ normalized ++ codes " " in
    if starts_with normalized (codes "with ")
    then false
    else if any (contains padded) postgres_specific_tokens
    then false
    else if contains padded (codes "pg_catalog.")
        || contains padded (codes "information_schema.")
        || any (contains_word padded) catalog_relations
    then false
    else if r.is_match regex_match_re sql || r.is_match regex_not_match_re sql
    then false
    else true
