-- ===== src/Metadata.antt =====
-- src/metadata.rs: the catalog queries of drivers that the gateway answers itself.
pub mod Types
pub mod Typmod
use exa_postgres_interface.Base.{List, [], ◌∷◌, Option, none, some, if◌then◌else◌}
use exa_postgres_interface.Base.Text.{Text, codes, trim, undouble}
use exa_postgres_interface.Policy.Regexes.{Regexes}

pub data MetadataPlan : Type 0 where
  pg_namespace jdbc_schemas pg_user pg_group pg_stat_activity pg_locks : MetadataPlan
  jdbc_tables : (schema_pattern table_pattern : Text) → MetadataPlan
  jdbc_columns : (schema_pattern table_pattern column_pattern : Text) → MetadataPlan
  pg_tables : (schema_exclude table_name : Option Text) → MetadataPlan
  info_schema_table_names : (catalog schema : Text) → MetadataPlan
  info_schema_column_names : (catalog schema table : Text) → MetadataPlan

abbrev pub jdbc_schemas_re : Text
jdbc_schemas_re =
    codes "(?is)^select\\s+nspname\\s+as\\s+\"TABLE_SCHEM\".*from\\s+pg_catalog\\.pg_namespace"

abbrev pub jdbc_tables_re : Text
jdbc_tables_re =
    codes
      "(?is)^select\\s+current_database\\(\\)\\s+as\\s+\"TABLE_CAT\".*from\\s+pg_catalog\\.pg_namespace\\s+n,\\s+pg_catalog\\.pg_class\\s+c"

abbrev pub jdbc_columns_re : Text
jdbc_columns_re =
    codes
      "(?is)^select\\s+\\*\\s+from\\s+\\(select\\s+current_database\\(\\)\\s+as\\s+current_database.*join\\s+pg_catalog\\.pg_attribute\\s+a"

abbrev pub pg_namespace_re : Text
pg_namespace_re = codes "(?is)^select\\s+\\*\\s+from\\s+pg_catalog\\.pg_namespace\\b"

abbrev pub pg_tables_re : Text
pg_tables_re = codes "(?is)^select\\s+\\*\\s+from\\s+pg_tables\\b"

abbrev pub info_schema_tables_re : Text
info_schema_tables_re = codes "(?is)^select\\s+table_name\\s+from\\s+information_schema\\.tables\\b"

abbrev pub info_schema_columns_re : Text
info_schema_columns_re =
    codes "(?is)^select\\s+column_name\\s+from\\s+information_schema\\.columns\\b"

abbrev pub pg_user_re : Text
pg_user_re = codes "(?is)^select\\s+\\*\\s+from\\s+pg_user\\b"

abbrev pub pg_group_re : Text
pg_group_re = codes "(?is)^select\\s+\\*\\s+from\\s+pg_group\\b"

abbrev pub pg_stat_activity_re : Text
pg_stat_activity_re = codes "(?is)^select\\s+\\*\\s+from\\s+pg_stat_activity\\b"

abbrev pub pg_locks_re : Text
pg_locks_re = codes "(?is)^select\\s+\\*\\s+from\\s+pg_locks\\b"

abbrev pub namespace_like_re : Text
namespace_like_re = codes "(?i)\\bn(?:\\.nspname)?\\s+like\\s+'((?:[^']|'')*)'"

abbrev pub relname_like_re : Text
relname_like_re = codes "(?i)\\bc(?:\\.relname)?\\s+like\\s+'((?:[^']|'')*)'"

abbrev pub attname_like_re : Text
attname_like_re = codes "(?i)\\battname\\s+like\\s+'((?:[^']|'')*)'"

abbrev pub schemaname_ne_re : Text
schemaname_ne_re = codes "(?i)\\bschemaname\\s*!=\\s*'((?:[^']|'')*)'"

abbrev pub tablename_eq_re : Text
tablename_eq_re = codes "(?i)\\btablename\\s*=\\s*'((?:[^']|'')*)'"

abbrev pub table_catalog_eq_re : Text
table_catalog_eq_re = codes "(?i)\\btable_catalog\\s*=\\s*'((?:[^']|'')*)'"

abbrev pub table_schema_eq_re : Text
table_schema_eq_re = codes "(?i)\\btable_schema\\s*=\\s*'((?:[^']|'')*)'"

abbrev pub table_name_eq_re : Text
table_name_eq_re = codes "(?i)\\btable_name\\s*=\\s*'((?:[^']|'')*)'"

-- The content of a string literal, its quotes no longer doubled.
unfoldable pub capture_literal : Regexes → Text → Text → Option Text
unfolding undouble
capture_literal r regex sql = elim (r.captures regex sql) [
  | none ↦ none
  | some group ↦ elim (group (codes "1")) [ none ↦ none | some m ↦ some (undouble b'\'' m) ]
]

abbrev pub unwrap_or : Option Text → Text → Text
unwrap_or none t = t
unwrap_or (some s) t = s

-- The tests come in the order of the source: the first pattern that matches decides.
unfoldable pub detect : Regexes → Text → Option MetadataPlan
unfolding trim capture_literal
detect r sql =
    let trimmed = trim sql in
    let literal : Text → Option Text = λ regex. capture_literal r regex trimmed in
    let like : Text → Text = λ regex. unwrap_or (literal regex) (codes "%") in
    let or_empty : Text → Text = λ regex. unwrap_or (literal regex) [] in
    if r.is_match jdbc_columns_re trimmed
    then some (
        MetadataPlan.jdbc_columns (like namespace_like_re) (like relname_like_re)
          (like attname_like_re))
    else if r.is_match jdbc_tables_re trimmed
    then some (MetadataPlan.jdbc_tables (like namespace_like_re) (like relname_like_re))
    else if r.is_match jdbc_schemas_re trimmed
    then some MetadataPlan.jdbc_schemas
    else if r.is_match pg_namespace_re trimmed
    then some MetadataPlan.pg_namespace
    else if r.is_match pg_tables_re trimmed
    then some (MetadataPlan.pg_tables (literal schemaname_ne_re) (literal tablename_eq_re))
    else if r.is_match info_schema_tables_re trimmed
    then some (
        MetadataPlan.info_schema_table_names
          (unwrap_or (literal table_catalog_eq_re) (codes "exasol")) (or_empty table_schema_eq_re))
    else if r.is_match info_schema_columns_re trimmed
    then some (
        MetadataPlan.info_schema_column_names
          (unwrap_or (literal table_catalog_eq_re) (codes "exasol")) (or_empty table_schema_eq_re)
          (or_empty table_name_eq_re))
    else if r.is_match pg_user_re trimmed
    then some MetadataPlan.pg_user
    else if r.is_match pg_group_re trimmed
    then some MetadataPlan.pg_group
    else if r.is_match pg_stat_activity_re trimmed
    then some MetadataPlan.pg_stat_activity
    else if r.is_match pg_locks_re trimmed
    then some MetadataPlan.pg_locks
    else none
