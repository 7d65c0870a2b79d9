-- ===== src/Translator/Known/Queries.antt =====
-- The queries that `rewrite_known_metadata_query` of src/translator.rs puts in place of those it knows.
use exa_postgres_interface.Base.{◌++◌}
use exa_postgres_interface.Base.Text.{Text, codes}

abbrev pub table_privileges_sql : Text
table_privileges_sql =
    codes
      "\nSELECT\n    CAST(NULL AS VARCHAR(128)) AS \"role\",\n    object_schema AS \"schema\",\n    object_name AS \"table\",\n    TRUE AS \"update\",\n    TRUE AS \"select\",\n    TRUE AS \"insert\",\n    TRUE AS \"delete\"\nFROM (\n    SELECT TABLE_SCHEMA AS object_schema, TABLE_NAME AS object_name\n    FROM SYS.EXA_ALL_TABLES\n    UNION\n    SELECT VIEW_SCHEMA AS object_schema, VIEW_NAME AS object_name\n    FROM SYS.EXA_ALL_VIEWS\n) t\nWHERE LOWER(object_schema) NOT LIKE 'pg\\_%'\n  AND LOWER(object_schema) <> 'information_schema'\n"

abbrev pub columns_sql : Text → Text → Text
columns_sql schema_filter table_filter =
    codes
      "\nSELECT\n    C.COLUMN_NAME AS \"name\",\n    CASE\n        WHEN COALESCE(C.UDT_SCHEMA, 'pg_catalog') IN ('public', 'pg_catalog') THEN C.UDT_NAME\n        ELSE '\"' || C.UDT_SCHEMA || '\".\"' || C.UDT_NAME || '\"'\n    END AS \"database-type\",\n    C.ORDINAL_POSITION - 1 AS \"database-position\",\n    C.TABLE_SCHEMA AS \"table-schema\",\n    C.TABLE_NAME AS \"table-name\",\n    CASE WHEN PK.COLUMN_NAME IS NULL THEN FALSE ELSE TRUE END AS \"pk?\",\n    CAST(NULL AS VARCHAR(2000000)) AS \"field-comment\",\n    CASE\n        WHEN (C.COLUMN_DEFAULT IS NULL OR LOWER(C.COLUMN_DEFAULT) = 'null')\n         AND C.IS_NULLABLE = 'NO'\n         AND C.IS_IDENTITY = 'NO'\n        THEN TRUE ELSE FALSE\n    END AS \"database-required\",\n    C.COLUMN_DEFAULT AS \"database-default\",\n    CASE WHEN C.IS_IDENTITY <> 'NO' THEN TRUE ELSE FALSE END AS \"database-is-auto-increment\",\n    CASE WHEN C.IS_GENERATED = 'ALWAYS' THEN TRUE ELSE FALSE END AS \"database-is-generated\",\n    CASE WHEN C.IS_NULLABLE = 'YES' THEN TRUE ELSE FALSE END AS \"database-is-nullable\"\nFROM INFORMATION_SCHEMA.COLUMNS C\nLEFT JOIN (\n    SELECT\n        TC.TABLE_SCHEMA,\n        TC.TABLE_NAME,\n        KC.COLUMN_NAME\n    FROM INFORMATION_SCHEMA.TABLE_CONSTRAINTS TC\n    JOIN INFORMATION_SCHEMA.KEY_COLUMN_USAGE KC\n      ON TC.CONSTRAINT_NAME = KC.CONSTRAINT_NAME\n     AND TC.TABLE_SCHEMA = KC.TABLE_SCHEMA\n     AND TC.TABLE_NAME = KC.TABLE_NAME\n    WHERE TC.CONSTRAINT_TYPE = 'PRIMARY KEY'\n) PK\n  ON C.TABLE_SCHEMA = PK.TABLE_SCHEMA\n AND C.TABLE_NAME = PK.TABLE_NAME\n AND C.COLUMN_NAME = PK.COLUMN_NAME\nWHERE REGEXP_INSTR(C.TABLE_SCHEMA, '^information_schema|catalog_history|pg_') = 0\n"
    ++ (schema_filter
        ++ (codes "\n"
            ++ (table_filter
                ++ (codes "\nORDER BY \"table-schema\", \"table-name\", \"database-position\"\n"))))

abbrev pub foreign_keys_sql : Text → Text → Text
foreign_keys_sql schema_filter table_filter =
    codes
      "\nSELECT\n    CC.CONSTRAINT_SCHEMA AS \"fk-table-schema\",\n    CC.CONSTRAINT_TABLE AS \"fk-table-name\",\n    CC.COLUMN_NAME AS \"fk-column-name\",\n    CC.REFERENCED_SCHEMA AS \"pk-table-schema\",\n    CC.REFERENCED_TABLE AS \"pk-table-name\",\n    CC.REFERENCED_COLUMN AS \"pk-column-name\"\nFROM SYS.EXA_DBA_CONSTRAINT_COLUMNS CC\nJOIN SYS.EXA_DBA_CONSTRAINTS C\n  ON C.CONSTRAINT_SCHEMA = CC.CONSTRAINT_SCHEMA\n AND C.CONSTRAINT_TABLE = CC.CONSTRAINT_TABLE\n AND C.CONSTRAINT_NAME = CC.CONSTRAINT_NAME\nWHERE C.CONSTRAINT_TYPE = 'FOREIGN KEY'\n  AND REGEXP_INSTR(CC.CONSTRAINT_SCHEMA, '^information_schema|catalog_history|pg_') = 0\n"
    ++ (schema_filter
        ++ (codes "\n"
            ++ (table_filter ++ (codes "\nORDER BY \"fk-table-schema\", \"fk-table-name\"\n"))))

abbrev pub primary_keys_sql : Text → Text → Text
primary_keys_sql schema_filter table_filter =
    codes
      "\nSELECT\n    'exasol' AS \"TABLE_CAT\",\n    CC.CONSTRAINT_SCHEMA AS \"TABLE_SCHEM\",\n    CC.CONSTRAINT_TABLE AS \"TABLE_NAME\",\n    CC.COLUMN_NAME AS \"COLUMN_NAME\",\n    CC.ORDINAL_POSITION AS \"KEY_SEQ\",\n    CC.CONSTRAINT_NAME AS \"PK_NAME\"\nFROM SYS.EXA_DBA_CONSTRAINT_COLUMNS CC\nJOIN SYS.EXA_DBA_CONSTRAINTS C\n  ON C.CONSTRAINT_SCHEMA = CC.CONSTRAINT_SCHEMA\n AND C.CONSTRAINT_TABLE = CC.CONSTRAINT_TABLE\n AND C.CONSTRAINT_NAME = CC.CONSTRAINT_NAME\nWHERE C.CONSTRAINT_TYPE = 'PRIMARY KEY'\n"
    ++ (schema_filter
        ++ (codes "\n"
            ++ (table_filter
                ++ (codes
                    "\nORDER BY CC.CONSTRAINT_TABLE, CC.CONSTRAINT_NAME, CC.ORDINAL_POSITION\n"))))

abbrev pub index_fields_sql : Text
index_fields_sql =
    codes
      "\nSELECT\n    CAST(NULL AS VARCHAR(128)) AS \"table-schema\",\n    CAST(NULL AS VARCHAR(128)) AS \"table-name\",\n    CAST(NULL AS VARCHAR(128)) AS \"field-name\"\nFROM (SELECT 1 AS DUMMY)\nWHERE 1 = 0\n"

abbrev pub constraints_sql : Text → Text → Text
constraints_sql schema_filter table_filter =
    codes
      "\nWITH CONSTRAINT_COLUMNS AS (\n    SELECT\n        CONSTRAINT_SCHEMA,\n        CONSTRAINT_TABLE,\n        CONSTRAINT_NAME,\n        GROUP_CONCAT(COLUMN_NAME ORDER BY COALESCE(ORDINAL_POSITION, 0) SEPARATOR ',') AS COLUMNS,\n        MAX(REFERENCED_SCHEMA) AS FOREIGN_SCHEMA_NAME,\n        MAX(REFERENCED_TABLE) AS FOREIGN_TABLE_NAME,\n        GROUP_CONCAT(REFERENCED_COLUMN ORDER BY COALESCE(ORDINAL_POSITION, 0) SEPARATOR ',') AS FOREIGN_COLUMNS\n    FROM SYS.EXA_DBA_CONSTRAINT_COLUMNS\n    GROUP BY CONSTRAINT_SCHEMA, CONSTRAINT_TABLE, CONSTRAINT_NAME\n)\nSELECT\n    C.CONSTRAINT_NAME AS constraint_name,\n    CASE\n        WHEN C.CONSTRAINT_TYPE = 'PRIMARY KEY' THEN 'Primary Key'\n        WHEN C.CONSTRAINT_TYPE = 'FOREIGN KEY' THEN 'Foreign Key'\n        WHEN C.CONSTRAINT_TYPE = 'NOT NULL' THEN 'Check'\n        ELSE C.CONSTRAINT_TYPE\n    END AS constraint_type,\n    C.CONSTRAINT_SCHEMA AS \"schema_name\",\n    C.CONSTRAINT_TABLE AS \"table_name\",\n    CC.COLUMNS AS \"columns\",\n    CC.FOREIGN_SCHEMA_NAME AS \"foreign_schema_name\",\n    CC.FOREIGN_TABLE_NAME AS \"foreign_table_name\",\n    CC.FOREIGN_COLUMNS AS \"foreign_columns\",\n    CASE\n        WHEN C.CONSTRAINT_TYPE = 'PRIMARY KEY'\n            THEN 'PRIMARY KEY (' || COALESCE(CC.COLUMNS, '') || ')'\n        WHEN C.CONSTRAINT_TYPE = 'FOREIGN KEY'\n            THEN 'FOREIGN KEY (' || COALESCE(CC.COLUMNS, '') || ') REFERENCES '\n                 || COALESCE(CC.FOREIGN_SCHEMA_NAME, '') || '.'\n                 || COALESCE(CC.FOREIGN_TABLE_NAME, '') || '('\n                 || COALESCE(CC.FOREIGN_COLUMNS, '') || ')'\n        WHEN C.CONSTRAINT_TYPE = 'NOT NULL'\n            THEN COALESCE(CC.COLUMNS, '') || ' IS NOT NULL'\n        ELSE C.CONSTRAINT_TYPE\n    END AS definition\nFROM SYS.EXA_DBA_CONSTRAINTS C\nLEFT JOIN CONSTRAINT_COLUMNS CC\n  ON CC.CONSTRAINT_SCHEMA = C.CONSTRAINT_SCHEMA\n AND CC.CONSTRAINT_TABLE = C.CONSTRAINT_TABLE\n AND CC.CONSTRAINT_NAME = C.CONSTRAINT_NAME\nWHERE "
    ++ (schema_filter
        ++ (codes "\n  AND "
            ++ (table_filter ++ (codes "\nORDER BY \"schema_name\", \"table_name\"\n"))))

abbrev pub triggers_sql : Text
triggers_sql =
    codes
      "\nSELECT\n    trigger_name AS \"Trigger Name\",\n    trigger_catalog AS \"Trigger Catalog\",\n    trigger_schema AS \"Trigger Schema\",\n    CAST(NULL AS VARCHAR(2000000)) AS \"Event Manipulation\",\n    action_orientation AS \"Action Orientation\",\n    action_condition AS \"Action Condition\",\n    action_statement AS \"Action Statement\",\n    CAST(NULL AS VARCHAR(2000000)) AS \"Procedure Name\",\n    CAST(NULL AS DECIMAL(18,0)) AS \"proc_oid\",\n    action_timing AS \"Condition Timing\",\n    event_object_catalog AS \"Event Object Catalog\",\n    event_object_schema AS \"Event Object Schema\",\n    event_object_table AS \"Event Object Table\",\n    action_reference_old_table AS \"Action ref Old Table\",\n    action_reference_new_table AS \"Action ref New Table\",\n    CAST(NULL AS VARCHAR(32)) AS \"Status\"\nFROM information_schema.triggers\nWHERE 1 = 0\n"

abbrev pub foreign_servers_sql : Text
foreign_servers_sql =
    codes
      "SELECT l.oid, l.srvname, l.srvowner, l.srvfdw, l.srvtype, l.srvversion, l.srvacl, l.srvoptions FROM PG_CATALOG.\"PG_FOREIGN_SERVER\" l"

abbrev pub foreign_data_wrappers_sql : Text
foreign_data_wrappers_sql =
    codes
      "SELECT l.oid, l.fdwname, l.fdwowner, l.fdwhandler, l.fdwvalidator, l.fdwacl, l.fdwoptions FROM PG_CATALOG.\"PG_FOREIGN_DATA_WRAPPER\" l LEFT OUTER JOIN PG_CATALOG.PG_PROC p ON p.oid = l.fdwhandler"

abbrev pub user_mappings_prefix : Text
user_mappings_prefix =
    codes
      "select distinct fs.srvname, case when rolname is null then 'public' else rolname end rolname, srvoptions, umoptions from pg_user_mappings um join pg_foreign_server fs on um.srvid = fs.oid left join pg_authid pa on um.umuser = pa.oid where fs.oid = "

abbrev pub user_mappings_sql : Text
user_mappings_sql =
    codes
      "SELECT DISTINCT fs.srvname, CASE WHEN rolname IS NULL THEN 'public' ELSE rolname END AS rolname, srvoptions, umoptions FROM PG_CATALOG.PG_USER_MAPPINGS um JOIN PG_CATALOG.\"PG_FOREIGN_SERVER\" fs ON um.srvid = fs.oid LEFT JOIN PG_CATALOG.PG_AUTHID pa ON um.umuser = pa.oid WHERE fs.oid = "

abbrev pub tables_sql : Text
tables_sql =
    codes
      "SELECT\n    TABLE_SCHEMA AS \"schema\",\n    TABLE_NAME AS \"name\",\n    'r' AS \"tabletype\",\n    CAST(NULL AS CHAR(1)) AS \"parenttype\"\nFROM SYS.EXA_ALL_TABLES\nORDER BY TABLE_SCHEMA, TABLE_NAME"
