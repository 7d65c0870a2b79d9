-- ===== src/Translator/Catalog.antt =====
-- The rewriting of catalog queries and the repair of what the transpiler makes of them:
-- `rewrite_pg_catalog` and `rewrite_sqlglot_edge_cases` of src/translator.rs.
use exa_postgres_interface.Base.{List, [], ◌∷◌, ◌++◌, map, if◌then◌else◌}
use exa_postgres_interface.Base.Text.{Text, codes, contains, replace, trim}
use exa_postgres_interface.Bootstrap.{join}
use exa_postgres_interface.Policy.Regexes.{Regexes, Match}
use exa_postgres_interface.Translator.Constants.{function_replacements, information_schema_columns}
use exa_postgres_interface.Translator.Patterns.{
  current_database_re, current_catalog_re, current_schema_call_re, session_user_re,
  current_schemas_first_re, pg_identify_object_identity_re, pg_get_viewdef_pretty_re,
  pg_get_expr_pretty_re, pg_get_constraintdef_pretty_re, col_description_format_re,
}
use exa_postgres_interface.Translator.Rewrites.{
  cap, replace_all_with, normalize_ansi_quoted_postgres_identifiers, rewrite_catalog_relations,
  rewrite_object_description, rewrite_regex_operators, rewrite_regclass_literals,
  rewrite_qualified_operators, rewrite_quote_ident, qualify_schema_prefix, qualify_function,
}

abbrev pub identified_object : Match → Text
unfolding trim
identified_object m =
    codes "PG_CATALOG.PG_IDENTIFY_OBJECT("
    ++ (trim (cap m (codes "1"))
        ++ (codes ", "
            ++ (trim (cap m (codes "2"))
                ++ (codes ", " ++ (trim (cap m (codes "3")) ++ codes ")")))))

abbrev pub qualify_functions : Regexes → List (Text × Text) → Text → Text
unfolding qualify_function
qualify_functions r [] sql = sql
qualify_functions r ((source, target) ∷ more) sql =
    qualify_functions r more (qualify_function r sql source target)

-- The calls that pretty-print, without the argument that asks for it.
abbrev pub without_pretty : Regexes → Text → Text
without_pretty r sql =
    let viewdef =
      r.replace_all pg_get_viewdef_pretty_re sql (codes "PG_CATALOG.PG_GET_VIEWDEF($1)") in
    let expr =
      r.replace_all pg_get_expr_pretty_re viewdef (codes "PG_CATALOG.PG_GET_EXPR($1, $2)") in
    r.replace_all pg_get_constraintdef_pretty_re expr (codes "PG_CATALOG.PG_GET_CONSTRAINTDEF($1)")

-- The names of the session, as Exasol has them.
abbrev pub session_names : Regexes → Text → Text
session_names r sql =
    let database = r.replace_all current_database_re sql (codes "'exasol'") in
    let catalog = r.replace_all current_catalog_re database (codes "'exasol'") in
    let schema = r.replace_all current_schema_call_re catalog (codes "CURRENT_SCHEMA") in
    let user = r.replace_all session_user_re schema (codes "CURRENT_USER") in
    r.replace_all current_schemas_first_re user (codes "'pg_catalog'")

unfoldable pub rewrite_pg_catalog : Regexes → Text → Text
unfolding identified_object normalize_ansi_quoted_postgres_identifiers rewrite_catalog_relations
    rewrite_object_description rewrite_regex_operators rewrite_regclass_literals
    rewrite_qualified_operators rewrite_quote_ident qualify_schema_prefix qualify_functions
rewrite_pg_catalog r sql =
    let normalized = normalize_ansi_quoted_postgres_identifiers r sql in
    let described =
      r.replace_all col_description_format_re normalized (codes "CAST(NULL AS VARCHAR(2000000))") in
    let operators = rewrite_qualified_operators r (rewrite_quote_ident r described) in
    let objects = rewrite_object_description r operators in
    let identified = replace_all_with r pg_identify_object_identity_re identified_object objects in
    let named = session_names r (without_pretty r identified) in
    let catalog = qualify_schema_prefix r named (codes "pg_catalog") (codes "PG_CATALOG") in
    let schemas =
      qualify_schema_prefix r catalog (codes "information_schema") (codes "INFORMATION_SCHEMA") in
    let relations = rewrite_catalog_relations r schemas in
    let functions = qualify_functions r function_replacements relations in
    rewrite_regex_operators r (rewrite_regclass_literals r functions)

abbrev pub edge_replacements : List (Text × Text)
edge_replacements =
    (
      codes "PG_CATALOG.\"PG_FOREIGN_SERVER\" AS fs",
      codes "PG_CATALOG.\"PG_FOREIGN_SERVER\" AS srv",
    )
    ∷ (
      codes "ARRAY_AGG(CAST(event_manipulation AS LONG VARCHAR))",
      codes
          "LISTAGG(CAST(event_manipulation AS VARCHAR(2000000)), ', ') WITHIN GROUP (ORDER BY event_manipulation)",
    )
    ∷ (
      codes
          " WHERE p.prorettype <> CAST('PG_CATALOG.cstring' AS PG_CATALOG.regtype) AND (p.proargtypes[-1] IS NULL OR p.proargtypes[-1] <> CAST('PG_CATALOG.cstring' AS PG_CATALOG.regtype)) AND",
      codes " WHERE",
    )
    ∷ (
      codes
          " WHERE p.prorettype <> CAST('PG_CATALOG.cstring' AS PG_CATALOG.regtype) AND (p.proargtypes[-1] IS NULL OR p.proargtypes[-1] <> CAST('PG_CATALOG.cstring' AS PG_CATALOG.regtype))",
      codes " WHERE 1 = 1",
    )
    ∷ (
      codes
          "CASE p.proargtypes[-1] WHEN CAST('PG_CATALOG.\"any\"' AS PG_CATALOG.regtype) THEN CAST('(all types)' AS PG_CATALOG.text) ELSE PG_CATALOG.format_type(p.proargtypes[-1], NULL) END",
      codes "PG_CATALOG.OIDVECTORTYPES(p.proargtypes)",
    )
    ∷ (
      codes
          "(t.typrelid = 0 OR (SELECT c.relkind = 'c' FROM PG_CATALOG.pg_class AS c WHERE c.oid = t.typrelid))",
      codes "(t.typrelid = 0)",
    )
    ∷ (
      codes
          "(t.typrelid = 0 OR (SELECT c.relkind = 'c' FROM PG_CATALOG.pg_class c WHERE c.oid = t.typrelid))",
      codes "(t.typrelid = 0)",
    )
    ∷ (
      codes
          "ON (C.TABLE_CATALOG, C.TABLE_SCHEMA, C.TABLE_NAME, 'TABLE', C.DTD_IDENTIFIER) = (E.OBJECT_CATALOG, E.OBJECT_SCHEMA, E.OBJECT_NAME, E.OBJECT_TYPE, E.DTD_IDENTIFIER)",
      codes
          "ON C.TABLE_CATALOG = E.OBJECT_CATALOG AND C.TABLE_SCHEMA = E.OBJECT_SCHEMA AND C.TABLE_NAME = E.OBJECT_NAME AND E.OBJECT_TYPE = 'TABLE' AND C.DTD_IDENTIFIER = E.DTD_IDENTIFIER",
    )
    ∷ (
      codes
          "ON (C.TABLE_CATALOG, C.TABLE_SCHEMA, C.TABLE_NAME, C.COLUMN_NAME, 'column_name') = (CO.TABLE_CATALOG, CO.TABLE_SCHEMA, CO.TABLE_NAME, CO.COLUMN_NAME, CO.OPTION_NAME)",
      codes
          "ON C.TABLE_CATALOG = CO.TABLE_CATALOG AND C.TABLE_SCHEMA = CO.TABLE_SCHEMA AND C.TABLE_NAME = CO.TABLE_NAME AND C.COLUMN_NAME = CO.COLUMN_NAME AND CO.OPTION_NAME = 'column_name'",
    )
    ∷ (
      codes "CO.OPTION_VALUE AS COLUMN_OPTION, C.ORDINAL_POSITION, C.IS_IDENTITY",
      codes
          "CO.OPTION_VALUE AS COLUMN_OPTION, C.ORDINAL_POSITION AS ORDINAL_POSITION_DUP, C.IS_IDENTITY",
    )
    ∷ []

abbrev pub replace_each : List (Text × Text) → Text → Text
unfolding replace
replace_each [] sql = sql
replace_each ((from, to) ∷ more) sql = replace_each more (replace from to sql)

unfoldable pub replace_case_type_name_star : Regexes → Text → Text → Text
replace_case_type_name_star r sql projection =
    r.replace_all
      (codes
        "(?is)\\bEND\\s+AS\\s+type_name\\s*,\\s*(?:[A-Z_][A-Z0-9_]*\\.)?\\*\\s+FROM\\s+INFORMATION_SCHEMA\\.COLUMNS\\b")
      sql (codes "END AS type_name, " ++ (projection ++ codes " FROM INFORMATION_SCHEMA.COLUMNS"))

unfoldable pub rewrite_sqlglot_edge_cases : Regexes → Text → Text
unfolding replace_each replace_case_type_name_star contains
rewrite_sqlglot_edge_cases r sql =
    let projection =
      join (codes ", ")
        (map (λ column. codes "\"" ++ (column ++ codes "\"")) information_schema_columns) in
    let replaced = replace_case_type_name_star r (replace_each edge_replacements sql) projection in
    let sized =
      r.replace_all (codes "(?i)\\bAS\\s+VARCHAR\\s*\\)") replaced (codes "AS VARCHAR(2000000))") in
    if contains sized (codes "PG_CATALOG.\"PG_FOREIGN_SERVER\" AS srv")
    then r.replace_all (codes "(?i)\\bfs\\.") sized (codes "srv.")
    else sized
