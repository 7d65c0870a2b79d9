-- ===== src/Translator/Patterns.antt =====
-- The patterns of src/translator.rs; the two of `rewrite_regex_operators` are in Translator/Detection.
use exa_postgres_interface.Base.{◌++◌}
use exa_postgres_interface.Base.Text.{Text, codes}
use exa_postgres_interface.Bootstrap.{join}
use exa_postgres_interface.Translator.Detection.{catalog_relations}

abbrev pub quoted_qualified_identifier_re : Text
quoted_qualified_identifier_re =
    codes "\"([A-Za-z_][A-Za-z0-9_]*)\"\\s*\\.\\s*\"([A-Za-z_][A-Za-z0-9_]*)\""

abbrev pub relation_alias_re : Text
relation_alias_re =
    codes
      "(?is)(\\b(?:from|join|left(?:\\s+outer)?\\s+join|right(?:\\s+outer)?\\s+join|inner\\s+join|full(?:\\s+outer)?\\s+join|cross\\s+join)\\s+(?:[A-Za-z_][A-Za-z0-9_]*(?:\\.[A-Za-z_][A-Za-z0-9_]*)?|\"[A-Za-z_][A-Za-z0-9_]*\")(?:\\s+AS)?)\\s+\"([A-Za-z_][A-Za-z0-9_]*)\""

abbrev pub catalog_relation_re : Text
catalog_relation_re =
    codes
      "(?i)(\\bfrom\\s+|\\bjoin\\s+|\\bleft(?:\\s+outer)?\\s+join\\s+|\\bright(?:\\s+outer)?\\s+join\\s+|\\binner\\s+join\\s+|\\bfull(?:\\s+outer)?\\s+join\\s+|\\bcross\\s+join\\s+|,\\s*)\"?(?P<rel>"
    ++ (join (codes "|") catalog_relations ++ codes ")\"?(\\s|,|\\)|$)")

abbrev pub ilike_re : Text
ilike_re =
    codes
      "(?i)(CAST\\([^)]+\\)|'(?:''|[^'])*'|[A-Za-z_][A-Za-z0-9_]*|\"[^\"]+\")\\s+ILIKE\\s+('(?:''|[^'])*'|[A-Za-z_][A-Za-z0-9_]*|\"[^\"]+\")"

abbrev pub current_database_re : Text
current_database_re = codes "(?i)\\bcurrent_database\\s*\\(\\s*\\)"

abbrev pub current_catalog_re : Text
current_catalog_re = codes "(?i)\\bcurrent_catalog(?:\\s*\\(\\s*\\))?"

abbrev pub current_schema_call_re : Text
current_schema_call_re = codes "(?i)\\bcurrent_schema\\s*\\(\\s*\\)"

abbrev pub session_user_re : Text
session_user_re = codes "(?i)\\bsession_user(?:\\s*\\(\\s*\\))?"

abbrev pub current_schemas_first_re : Text
current_schemas_first_re =
    codes
      "(?i)\\(?\\s*(?:pg_catalog\\.)?current_schemas\\s*\\(\\s*true\\s*\\)\\s*\\)?\\s*\\[\\s*1\\s*\\]"

abbrev pub qualified_operator_re : Text
qualified_operator_re =
    codes
      "(?i)\\s+OPERATOR\\s*\\(\\s*(?:PG_CATALOG|pg_catalog)\\s*\\.\\s*(<>|!=|<=|>=|=|<|>)\\s*\\)\\s*"

abbrev pub pg_identify_object_identity_re : Text
pg_identify_object_identity_re =
    codes
      "(?is)\\(\\s*(?:pg_catalog\\.)?pg_identify_object\\s*\\(\\s*([^,]+?)\\s*,\\s*([^,]+?)\\s*,\\s*([^)]+?)\\s*\\)\\s*\\)\\s*\\.\\s*identity\\b"

abbrev pub pg_get_viewdef_pretty_re : Text
pg_get_viewdef_pretty_re =
    codes "(?is)(?:pg_catalog\\.)?pg_get_viewdef\\s*\\(\\s*([^,]+?)\\s*,\\s*(?:true|false)\\s*\\)"

abbrev pub pg_get_expr_pretty_re : Text
pg_get_expr_pretty_re =
    codes
      "(?is)(?:pg_catalog\\.)?pg_get_expr\\s*\\(\\s*([^,]+?)\\s*,\\s*([^,]+?)\\s*,\\s*(?:true|false)\\s*\\)"

abbrev pub pg_get_constraintdef_pretty_re : Text
pg_get_constraintdef_pretty_re =
    codes
      "(?is)(?:pg_catalog\\.)?pg_get_constraintdef\\s*\\(\\s*([^,]+?)\\s*,\\s*(?:true|false)\\s*\\)"

abbrev pub obj_description_re : Text
obj_description_re =
    codes
      "(?is)(?:pg_catalog\\.)?obj_description\\s*\\(\\s*([^,]+?)\\s*,\\s*'(pg_namespace|pg_class)'\\s*\\)"

abbrev pub regclass_literal_re : Text
regclass_literal_re = codes "(?i)'((?:pg_catalog\\.)?[A-Za-z_][A-Za-z0-9_]*)'\\s*::\\s*regclass"

abbrev pub regclass_string_re : Text
regclass_string_re = codes "(?i)'([^']*)'\\s*::\\s*regclass"

abbrev pub fk_out_schema_re : Text
fk_out_schema_re = codes "(?i)\\bn\\.nspname\\s*=\\s*'([^']*)'"

abbrev pub fk_out_table_re : Text
fk_out_table_re = codes "(?i)\\bt\\.relname\\s*=\\s*'([^']*)'"

abbrev pub fk_in_schema_re : Text
fk_in_schema_re = codes "(?i)\\bnf\\.nspname\\s*=\\s*'([^']*)'"

abbrev pub fk_in_table_re : Text
fk_in_table_re = codes "(?i)\\btf\\.relname\\s*=\\s*'([^']*)'"

abbrev pub create_script_table_re : Text
create_script_table_re = codes "(?i)\\bc\\.relname\\s*=\\s*'([^']*)'"

abbrev pub quote_ident_re : Text
quote_ident_re = codes "(?i)\\bquote_ident\\s*\\(\\s*([^()]+?)\\s*\\)"

abbrev pub col_description_format_re : Text
col_description_format_re =
    codes
      "(?i)(?:pg_catalog\\.)?col_description\\s*\\(\\s*format\\s*\\([^)]*\\)\\s*::\\s*regclass\\s*(?:::\\s*oid\\s*)?,[^)]*\\)"

abbrev pub exasol_catalog_prefix_re : Text
exasol_catalog_prefix_re =
    codes
      "(?i)(^|[\\s,(\\[])\"?exasol\"?\\s*\\.\\s*(\"?[A-Za-z_][A-Za-z0-9_]*\"?\\s*\\.\\s*\"?[A-Za-z_][A-Za-z0-9_]*\"?)"

abbrev pub alias_re : Text
alias_re = codes "(?i)\\bAS\\s+([A-Za-z_][A-Za-z0-9_]*)(\\s*[()]?)"

abbrev pub redundant_offset_re : Text
redundant_offset_re = codes "(?i)\\s+OFFSET\\s+(?:0|NULL)\\b(?:\\s+ROWS?\\b)?"
