-- ===== src/Session/Catalog/Queries.antt =====
-- The queries on the system tables of Exasol that `execute_metadata_query` makes.
use exa_postgres_interface.Base.{◌++◌, Option, none, some, []}
use exa_postgres_interface.Base.Text.{Text, codes}
use exa_postgres_interface.Session.Simple.{sql_string_literal}

abbrev pub schemas_sql : Text
schemas_sql = codes "SELECT SCHEMA_NAME FROM SYS.EXA_SCHEMAS ORDER BY SCHEMA_NAME"

unfoldable pub jdbc_tables_sql : Text → Text → Text
unfolding sql_string_literal
jdbc_tables_sql schema_pattern table_pattern =
    codes
      "SELECT 'exasol' AS \"TABLE_CAT\", object_schema AS \"TABLE_SCHEM\", object_name AS \"TABLE_NAME\", object_type AS \"TABLE_TYPE\", remarks AS \"REMARKS\", '' AS \"TYPE_CAT\", '' AS \"TYPE_SCHEM\", '' AS \"TYPE_NAME\", '' AS \"SELF_REFERENCING_COL_NAME\", '' AS \"REF_GENERATION\" FROM ( SELECT TABLE_SCHEMA AS object_schema, TABLE_NAME AS object_name, 'TABLE' AS object_type, COALESCE(TABLE_COMMENT, '') AS remarks FROM SYS.EXA_ALL_TABLES UNION ALL SELECT VIEW_SCHEMA AS object_schema, VIEW_NAME AS object_name, 'VIEW' AS object_type, COALESCE(VIEW_COMMENT, '') AS remarks FROM SYS.EXA_ALL_VIEWS ) objects WHERE object_schema LIKE "
    ++ (sql_string_literal schema_pattern
        ++ (codes " AND object_name LIKE "
            ++ (sql_string_literal table_pattern
                ++ (codes " ORDER BY \"TABLE_TYPE\", \"TABLE_SCHEM\", \"TABLE_NAME\""))))

unfoldable pub jdbc_columns_sql : Text → Text → Text → Text
unfolding sql_string_literal
jdbc_columns_sql schema_pattern table_pattern column_pattern =
    codes
      "SELECT COLUMN_SCHEMA, COLUMN_TABLE, COLUMN_NAME, COLUMN_TYPE, COLUMN_IS_NULLABLE, COLUMN_DEFAULT, COLUMN_COMMENT, COLUMN_ORDINAL_POSITION FROM SYS.EXA_ALL_COLUMNS WHERE COLUMN_OBJECT_TYPE IN ('TABLE', 'VIEW') AND COLUMN_SCHEMA LIKE "
    ++ (sql_string_literal schema_pattern
        ++ (codes " AND COLUMN_TABLE LIKE "
            ++ (sql_string_literal table_pattern
                ++ (codes " AND COLUMN_NAME LIKE "
                    ++ (sql_string_literal column_pattern
                        ++ (codes
                            " ORDER BY COLUMN_SCHEMA, COLUMN_TABLE, COLUMN_ORDINAL_POSITION"))))))

unfoldable pub pg_tables_sql : Text → Text → Text
unfolding sql_string_literal
pg_tables_sql schema_exclude table_filter =
    codes
      "SELECT TABLE_SCHEMA AS schemaname, TABLE_NAME AS tablename, TABLE_OWNER AS tableowner, '' AS tablespace, false AS hasindexes, false AS hasrules, false AS hastriggers, false AS rowsecurity FROM SYS.EXA_ALL_TABLES WHERE TABLE_SCHEMA != "
    ++ (sql_string_literal schema_exclude
        ++ (codes " " ++ (table_filter ++ (codes " ORDER BY schemaname, tablename"))))

unfoldable pub info_schema_table_names_sql : Text → Text
unfolding sql_string_literal
info_schema_table_names_sql schema =
    codes
      "SELECT TABLE_NAME FROM ( SELECT 'exasol' AS TABLE_CATALOG, TABLE_SCHEMA AS TABLE_SCHEMA, TABLE_NAME AS TABLE_NAME FROM SYS.EXA_ALL_TABLES UNION ALL SELECT 'exasol' AS TABLE_CATALOG, VIEW_SCHEMA AS TABLE_SCHEMA, VIEW_NAME AS TABLE_NAME FROM SYS.EXA_ALL_VIEWS ) objects WHERE TABLE_CATALOG = 'exasol' AND TABLE_SCHEMA = "
    ++ (sql_string_literal schema ++ (codes " ORDER BY TABLE_NAME"))

unfoldable pub info_schema_column_names_sql : Text → Text → Text
unfolding sql_string_literal
info_schema_column_names_sql schema table =
    codes "SELECT COLUMN_NAME FROM SYS.EXA_ALL_COLUMNS WHERE COLUMN_SCHEMA = "
    ++ (sql_string_literal schema
        ++ (codes " AND COLUMN_TABLE = "
            ++ (sql_string_literal table ++ (codes " ORDER BY COLUMN_NAME"))))

unfoldable pub table_filter_sql : Option Text → Text
unfolding sql_string_literal
table_filter_sql none = []
table_filter_sql (some value) = codes "AND TABLE_NAME = " ++ sql_string_literal value
