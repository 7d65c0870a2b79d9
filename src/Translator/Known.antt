-- ===== src/Translator/Known.antt =====
-- The queries of clients that `rewrite_known_metadata_query` of src/translator.rs knows as a whole.
pub mod Queries
pub mod Filters
use exa_postgres_interface.Base.{
  Bool, true, false, ◌&&◌, List, [], ◌∷◌, ◌++◌, Option, none, some, if◌then◌else◌,
}
use exa_postgres_interface.Base.Text.{
  Text, codes, text_eq, contains, starts_with, ends_with, trim, replace_char,
}
use exa_postgres_interface.Policy.Regexes.{Regexes}
use exa_postgres_interface.Translator.Detection.{normalize_for_match}
use exa_postgres_interface.Translator.Keys.{
  primary_key_query, foreign_key_query, create_table_script_query,
}
use exa_postgres_interface.Translator.Known.Filters.{
  first_group, extract_in_filter, extract_in_or_eq_filter, extract_like_filter,
  regclass_schema_table, trim_start_matches, trim_end_matches,
}
use exa_postgres_interface.Translator.Known.Queries.{
  table_privileges_sql, columns_sql, foreign_keys_sql, primary_keys_sql, index_fields_sql,
  constraints_sql, triggers_sql, foreign_servers_sql, foreign_data_wrappers_sql,
  user_mappings_prefix, user_mappings_sql, tables_sql,
}
use exa_postgres_interface.Translator.Patterns.{
  fk_out_schema_re, fk_out_table_re, fk_in_schema_re, fk_in_table_re, create_script_table_re,
}

-- `if test { return answer }`.
abbrev pub when : Bool → Text → Option Text
when test answer = if test then some answer else none

-- The first answer, or the statement.
abbrev pub first : List (Option Text) → Text → Text
first [] sql = sql
first (none ∷ answers) sql = first answers sql
first (some answer ∷ answers) sql = answer

abbrev pub known_collations : Text → Option Text
known_collations normalized =
    when
      (text_eq normalized
        (codes "select collation_schema, collation_name from information_schema.collations"))
      (codes
        "SELECT \"COLLATION_SCHEMA\", \"COLLATION_NAME\" FROM INFORMATION_SCHEMA.\"COLLATIONS\"")

abbrev pub known_foreign_servers : Text → Option Text
known_foreign_servers compact =
    when (text_eq compact (codes "selectl.oid,l.*frompg_catalog.pg_foreign_serverl"))
      foreign_servers_sql

abbrev pub known_foreign_data_wrappers : Text → Option Text
known_foreign_data_wrappers compact =
    when
      (text_eq compact (
        codes
          "selectl.oid,l.*frompg_catalog.pg_foreign_data_wrapperlleftouterjoinpg_catalog.pg_procponp.oid=l.fdwhandler"))
      foreign_data_wrappers_sql

abbrev pub known_user_mappings : Text → Option Text
unfolding trim
known_user_mappings normalized =
    let oid = trim (
      trim_end_matches (trim_start_matches normalized user_mappings_prefix)
        (codes " order by srvname")) in
    when
      (starts_with normalized user_mappings_prefix
        && ends_with normalized (codes " order by srvname"))
      (user_mappings_sql ++ (oid ++ codes " ORDER BY srvname"))

abbrev pub known_table_privileges : Text → Option Text
unfolding contains
known_table_privileges normalized =
    when
      (starts_with normalized (codes "with table_privileges as (")
        && contains normalized (codes "has_any_column_privilege")
        && contains normalized (codes "has_table_privilege")
        && contains normalized (codes "from table_privileges"))
      table_privileges_sql

abbrev pub known_columns : Regexes → Text → Text → Option Text
unfolding contains extract_in_filter
known_columns r sql normalized =
    let schema_filter = extract_in_filter r sql (codes "c.table_schema") (codes "C.TABLE_SCHEMA") in
    let table_filter = extract_in_filter r sql (codes "c.table_name") (codes "C.TABLE_NAME") in
    when
      (contains normalized (codes "from information_schema.columns")
        && contains normalized (codes "col_description")
        && contains normalized (codes "union all")
        && contains normalized (codes "from pg_catalog.pg_class"))
      (columns_sql schema_filter table_filter)

abbrev pub known_foreign_keys : Regexes → Text → Text → Option Text
unfolding contains extract_in_filter
known_foreign_keys r sql normalized =
    let schema_filter =
      extract_in_filter r sql (codes "fk_ns.nspname") (codes "CC.CONSTRAINT_SCHEMA") in
    let table_filter =
      extract_in_filter r sql (codes "fk_table.relname") (codes "CC.CONSTRAINT_TABLE") in
    when
      (contains normalized (codes "from pg_constraint")
        && contains normalized (codes "fk-table-schema")
        && contains normalized (codes "pk-table-schema")
        && contains normalized (codes "any(c.conkey)"))
      (foreign_keys_sql schema_filter table_filter)

abbrev pub known_primary_keys : Regexes → Text → Text → Option Text
unfolding contains extract_in_or_eq_filter
known_primary_keys r sql normalized =
    let schema_filter =
      extract_in_or_eq_filter r sql (codes "n.nspname") (codes "CC.CONSTRAINT_SCHEMA") in
    let table_filter =
      extract_in_or_eq_filter r sql (codes "ct.relname") (codes "CC.CONSTRAINT_TABLE") in
    when
      (contains normalized (codes "information_schema._pg_expandarray")
        && contains normalized (codes "pg_index")
        && contains normalized (codes "i.indisprimary")
        && contains normalized (codes "key_seq")
        && contains normalized (codes "pk_name"))
      (primary_keys_sql schema_filter table_filter)

abbrev pub known_index_fields : Text → Option Text
unfolding contains
known_index_fields normalized =
    when
      (contains normalized (codes "information_schema._pg_expandarray")
        && contains normalized (codes "pg_get_indexdef")
        && contains normalized (codes "pg_catalog.pg_index"))
      index_fields_sql

abbrev pub or_all : Option Text → Text
or_all none = codes "1 = 1"
or_all (some filter) = filter

abbrev pub known_constraints : Regexes → Text → Text → Option Text
unfolding contains extract_like_filter
known_constraints r sql normalized =
    let schema_filter =
      or_all (extract_like_filter r sql (codes "sch.nspname") (codes "C.CONSTRAINT_SCHEMA")) in
    let table_filter =
      or_all (extract_like_filter r sql (codes "tbl.relname") (codes "C.CONSTRAINT_TABLE")) in
    when
      (contains normalized (codes "from pg_constraint")
        && contains normalized (codes "lateral unnest")
        && contains normalized (codes "array_agg(col.attname"))
      (constraints_sql schema_filter table_filter)

abbrev pub known_triggers : Text → Option Text
unfolding contains
known_triggers normalized =
    when
      (contains normalized (codes "from pg_catalog.pg_trigger")
        && contains normalized (codes "information_schema.triggers")
        && contains normalized (codes "array_agg("))
      triggers_sql

abbrev pub known_tables : Text → Option Text
unfolding contains
known_tables normalized =
    when
      (contains normalized (codes "information_schema.tables")
        && contains normalized (codes "pg_inherits")
        && contains normalized (codes "relkind"))
      tables_sql

abbrev pub known_primary_key_columns : Regexes → Text → Text → Option Text
unfolding contains regclass_schema_table primary_key_query
known_primary_key_columns r sql normalized =
    if contains normalized (codes "pg_index")
      && contains normalized (codes "indisprimary")
      && contains normalized (codes "::regclass")
    then elim (regclass_schema_table r sql) [
      | none ↦ none
      | some (schema, table) ↦ some (primary_key_query schema table)
    ]
    else none

-- The answer where both names are found.
abbrev pub with_both : (Text → Text → Text) → Option Text → Option Text → Option Text
with_both f none table = none
with_both f (some schema) none = none
with_both f (some schema) (some table) = some (f schema table)

abbrev pub known_foreign_key_columns : Regexes → Text → Text → Bool → Option Text
unfolding contains foreign_key_query
known_foreign_key_columns r sql normalized incoming =
    if contains normalized (codes "pg_constraint")
      && contains normalized (codes "generate_subscripts")
      && contains normalized (codes "contype = 'f'")
    then with_both (λ schema table. foreign_key_query schema table incoming)
        (first_group r (if incoming then fk_in_schema_re else fk_out_schema_re) sql)
        (first_group r (if incoming then fk_in_table_re else fk_out_table_re) sql)
    else none

abbrev pub known_create_script : Regexes → Text → Text → Option Text
unfolding contains create_table_script_query
known_create_script r sql normalized =
    if contains normalized (codes "as createtable") && contains normalized (codes "array_agg")
    then with_both create_table_script_query (first_group r fk_out_schema_re sql)
        (first_group r create_script_table_re sql)
    else none

-- The answers in the order of the source: the first query that is known decides.
abbrev pub known_answers : Regexes → Text → List (Option Text)
unfolding normalize_for_match replace_char
known_answers r sql =
    let normalized = normalize_for_match sql in
    let compact = replace_char b' ' [] normalized in
    known_collations normalized
    ∷ known_foreign_servers compact
    ∷ known_foreign_data_wrappers compact
    ∷ known_user_mappings normalized
    ∷ known_table_privileges normalized
    ∷ known_columns r sql normalized
    ∷ known_foreign_keys r sql normalized
    ∷ known_primary_keys r sql normalized
    ∷ known_index_fields normalized
    ∷ known_constraints r sql normalized
    ∷ known_triggers normalized
    ∷ known_tables normalized
    ∷ known_primary_key_columns r sql normalized
    ∷ known_foreign_key_columns r sql normalized false
    ∷ known_foreign_key_columns r sql normalized true
    ∷ known_create_script r sql normalized
    ∷ []

unfoldable pub rewrite_known_metadata_query : Regexes → Text → Text
unfolding known_answers
rewrite_known_metadata_query r sql = first (known_answers r sql) sql
