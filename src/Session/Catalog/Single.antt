-- ===== src/Session/Catalog/Single.antt =====
-- The queries on the system tables are single statements.
use exa_postgres_interface.Base.{
  Option, none, some, ◌≤◌, true, false, Bool-cases, inl, inr, length, List, All, [], ◌∷◌, ◌++◌, ◌≡◌,
  refl, ◌∙◌, reverse, arith,
}
use exa_postgres_interface.Base.Text.{Text, codes, trim, is_empty}
use exa_postgres_interface.Session.Catalog.Queries.{
  pg_tables_sql, table_filter_sql, jdbc_tables_sql, jdbc_columns_sql, info_schema_table_names_sql,
  info_schema_column_names_sql,
}
use exa_postgres_interface.Session.Simple.{
  split_simple_query, split_from, push_statement, sql_string_literal,
}
use exa_postgres_interface.Session.Literals.{no_quote, quote, body}
use exa_postgres_interface.Session.Splitting.{split_from-sql_string_literal}

-- The splitter finds one statement at most.
abbrev pub IsSingle : Text → Type 0
IsSingle sql = length (split_simple_query sql) ≤ 1

-- A text that the splitter reads to its end, outside quotes, and without a statement done.
one_statement :
    (sql current : Text)
    → split_from [] [] false false sql ≡ split_from [] current false false []
    → length (split_simple_query sql) ≤ 1
unfolding split_simple_query split_from push_statement
one_statement sql current e =
    rw (e, split_simple_query)
      (elim (Bool-cases (is_empty (trim (reverse current)))) [
        | inl blank ↦ rw (blank, push_statement) (omega arith)
        | inr kept ↦ rw (kept, push_statement) (omega arith)
      ])

-- Constant text that the splitter reads without an end of a statement, between literals.
abbrev pub Passes : Text → Type 0
Passes c =
    ((current rest : Text)
      → split_from [] current false false (c ++ (quote ∷ rest))
        ≡ split_from [] (reverse c ++ current) false false (quote ∷ rest))
    × ((rest : Text) → no_quote (c ++ rest) ≡ true)

abbrev pub Ends : Text → Type 0
Ends c =
    ((current : Text)
      → split_from [] current false false c ≡ split_from [] (reverse c ++ current) false false [])
    × (no_quote c ≡ true)

-- A query with values in it as literals, each with the constant text before it.
abbrev pub template : List (Text × Text) → Text → Text
template [] last = last
template ((c, value) ∷ pieces) last = c ++ (sql_string_literal value ++ template pieces last)

template-no_quote :
    (pieces : List (Text × Text)) (last : Text)
    → All (λ (p : Text × Text). Passes p.0) pieces
    → Ends last
    → no_quote (template pieces last) ≡ true
template-no_quote [] last h e = e.1
template-no_quote ((c, value) ∷ pieces) last (k, h) e = k.1 _

split_from-template :
    (pieces : List (Text × Text)) (last current : Text)
    → All (λ (p : Text × Text). Passes p.0) pieces
    → Ends last
    → (current' : Text) × (split_from [] current false false (template pieces last)
        ≡ split_from [] current' false false [])
unfolding sql_string_literal
split_from-template [] last current h e = (reverse last ++ current, e.0 current)
split_from-template ((c, value) ∷ pieces) last current (k, h) e =
    let (current', f) =
      split_from-template pieces last (reverse (sql_string_literal value) ++ (reverse c ++ current))
        h e in
    (
      current',
      k.0 current (body value ++ codes "'" ++ template pieces last)
          ∙ split_from-sql_string_literal [] (reverse c ++ current) value (template pieces last)
              (template-no_quote pieces last h e)
          ∙ f,
    )

pub template-IsSingle :
    (pieces : List (Text × Text)) (last : Text)
    → All (λ (p : Text × Text). Passes p.0) pieces
    → Ends last
    → IsSingle (template pieces last)
template-IsSingle pieces last h e =
    let (current, f) = split_from-template pieces last [] h e in
    one_statement (template pieces last) current f

jdbc_tables_sql-IsSingle :
    (schema_pattern table_pattern : Text) → IsSingle (jdbc_tables_sql schema_pattern table_pattern)
unfolding jdbc_tables_sql split_from
jdbc_tables_sql-IsSingle schema_pattern table_pattern =
    template-IsSingle
      ((
        codes
            "SELECT 'exasol' AS \"TABLE_CAT\", object_schema AS \"TABLE_SCHEM\", object_name AS \"TABLE_NAME\", object_type AS \"TABLE_TYPE\", remarks AS \"REMARKS\", '' AS \"TYPE_CAT\", '' AS \"TYPE_SCHEM\", '' AS \"TYPE_NAME\", '' AS \"SELF_REFERENCING_COL_NAME\", '' AS \"REF_GENERATION\" FROM ( SELECT TABLE_SCHEMA AS object_schema, TABLE_NAME AS object_name, 'TABLE' AS object_type, COALESCE(TABLE_COMMENT, '') AS remarks FROM SYS.EXA_ALL_TABLES UNION ALL SELECT VIEW_SCHEMA AS object_schema, VIEW_NAME AS object_name, 'VIEW' AS object_type, COALESCE(VIEW_COMMENT, '') AS remarks FROM SYS.EXA_ALL_VIEWS ) objects WHERE object_schema LIKE ",
        schema_pattern,
      )
        ∷ (codes " AND object_name LIKE ", table_pattern)
        ∷ [])
      (codes " ORDER BY \"TABLE_TYPE\", \"TABLE_SCHEM\", \"TABLE_NAME\"")
      (((λ _ _. refl), (λ _. refl)), (((λ _ _. refl), (λ _. refl)), tt)) ((λ _. refl), refl)

jdbc_columns_sql-IsSingle :
    (schema_pattern table_pattern column_pattern : Text)
    → IsSingle (jdbc_columns_sql schema_pattern table_pattern column_pattern)
unfolding jdbc_columns_sql split_from
jdbc_columns_sql-IsSingle schema_pattern table_pattern column_pattern =
    template-IsSingle
      ((
        codes
            "SELECT COLUMN_SCHEMA, COLUMN_TABLE, COLUMN_NAME, COLUMN_TYPE, COLUMN_IS_NULLABLE, COLUMN_DEFAULT, COLUMN_COMMENT, COLUMN_ORDINAL_POSITION FROM SYS.EXA_ALL_COLUMNS WHERE COLUMN_OBJECT_TYPE IN ('TABLE', 'VIEW') AND COLUMN_SCHEMA LIKE ",
        schema_pattern,
      )
        ∷ (codes " AND COLUMN_TABLE LIKE ", table_pattern)
        ∷ (codes " AND COLUMN_NAME LIKE ", column_pattern)
        ∷ [])
      (codes " ORDER BY COLUMN_SCHEMA, COLUMN_TABLE, COLUMN_ORDINAL_POSITION")
      (
        ((λ _ _. refl), (λ _. refl)),
        (((λ _ _. refl), (λ _. refl)), (((λ _ _. refl), (λ _. refl)), tt)),
      )
      ((λ _. refl), refl)

info_schema_table_names_sql-IsSingle :
    (schema : Text) → IsSingle (info_schema_table_names_sql schema)
unfolding info_schema_table_names_sql split_from
info_schema_table_names_sql-IsSingle schema =
    template-IsSingle
      ((
        codes
            "SELECT TABLE_NAME FROM ( SELECT 'exasol' AS TABLE_CATALOG, TABLE_SCHEMA AS TABLE_SCHEMA, TABLE_NAME AS TABLE_NAME FROM SYS.EXA_ALL_TABLES UNION ALL SELECT 'exasol' AS TABLE_CATALOG, VIEW_SCHEMA AS TABLE_SCHEMA, VIEW_NAME AS TABLE_NAME FROM SYS.EXA_ALL_VIEWS ) objects WHERE TABLE_CATALOG = 'exasol' AND TABLE_SCHEMA = ",
        schema,
      )
        ∷ [])
      (codes " ORDER BY TABLE_NAME") (((λ _ _. refl), (λ _. refl)), tt) ((λ _. refl), refl)

info_schema_column_names_sql-IsSingle :
    (schema table : Text) → IsSingle (info_schema_column_names_sql schema table)
unfolding info_schema_column_names_sql split_from
info_schema_column_names_sql-IsSingle schema table =
    template-IsSingle
      ((codes "SELECT COLUMN_NAME FROM SYS.EXA_ALL_COLUMNS WHERE COLUMN_SCHEMA = ", schema)
        ∷ (codes " AND COLUMN_TABLE = ", table)
        ∷ [])
      (codes " ORDER BY COLUMN_NAME")
      (((λ _ _. refl), (λ _. refl)), (((λ _ _. refl), (λ _. refl)), tt)) ((λ _. refl), refl)

pg_tables_sql-IsSingle :
    (schema_exclude : Text) (table_name : Option Text)
    → IsSingle (pg_tables_sql schema_exclude (table_filter_sql table_name))
unfolding pg_tables_sql table_filter_sql split_from
pg_tables_sql-IsSingle schema_exclude none =
    template-IsSingle
      ((
        codes
            "SELECT TABLE_SCHEMA AS schemaname, TABLE_NAME AS tablename, TABLE_OWNER AS tableowner, '' AS tablespace, false AS hasindexes, false AS hasrules, false AS hastriggers, false AS rowsecurity FROM SYS.EXA_ALL_TABLES WHERE TABLE_SCHEMA != ",
        schema_exclude,
      )
        ∷ [])
      (codes "  ORDER BY schemaname, tablename") (((λ _ _. refl), (λ _. refl)), tt)
      ((λ _. refl), refl)
pg_tables_sql-IsSingle schema_exclude (some value) =
    template-IsSingle
      ((
        codes
            "SELECT TABLE_SCHEMA AS schemaname, TABLE_NAME AS tablename, TABLE_OWNER AS tableowner, '' AS tablespace, false AS hasindexes, false AS hasrules, false AS hastriggers, false AS rowsecurity FROM SYS.EXA_ALL_TABLES WHERE TABLE_SCHEMA != ",
        schema_exclude,
      )
        ∷ (codes " AND TABLE_NAME = ", value)
        ∷ [])
      (codes " ORDER BY schemaname, tablename")
      (((λ _ _. refl), (λ _. refl)), (((λ _ _. refl), (λ _. refl)), tt)) ((λ _. refl), refl)

-- Each query on the system tables that the gateway makes for a driver is one statement at most,
-- whatever the patterns and names in it: no quote or semicolon in them ends it.
pub metadata_queries-IsSingle :
    (schema table column : Text) (table_name : Option Text)
    → IsSingle (jdbc_tables_sql schema table)
      × IsSingle (jdbc_columns_sql schema table column)
      × IsSingle (pg_tables_sql schema (table_filter_sql table_name))
      × IsSingle (info_schema_table_names_sql schema)
      × IsSingle (info_schema_column_names_sql schema table)
metadata_queries-IsSingle schema table column table_name = (
  jdbc_tables_sql-IsSingle schema table,
  jdbc_columns_sql-IsSingle schema table column,
  pg_tables_sql-IsSingle schema table_name,
  info_schema_table_names_sql-IsSingle schema,
  info_schema_column_names_sql-IsSingle schema table,
)
