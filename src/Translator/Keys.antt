-- ===== src/Translator/Keys.antt =====
-- The queries on keys and tables that the translator makes for clients: `primary_key_query`,
-- `foreign_key_query` and `create_table_script_query`.
pub mod Single
use exa_postgres_interface.Base.{Bool, [], ◌∷◌, ◌++◌, Option, none, some, if◌then◌else◌}
use exa_postgres_interface.Base.Text.{Text, codes, replace_char}

-- A value in quotes, those in it doubled.
unfoldable pub literal : Text → Text
unfolding replace_char
literal value = codes "'" ++ (replace_char b'\'' (codes "''") value ++ codes "'")

unfoldable pub schema_filter : Option Text → Text
unfolding literal
schema_filter none = []
schema_filter (some schema) = codes " AND cc.CONSTRAINT_SCHEMA = " ++ literal schema

unfoldable pub primary_key_query : Option Text → Text → Text
unfolding literal schema_filter
primary_key_query schema table =
    codes
      "SELECT cc.COLUMN_NAME AS \"column_name\", c.COLUMN_TYPE AS \"data_type\", cc.ORDINAL_POSITION AS \"position\" FROM SYS.EXA_ALL_CONSTRAINT_COLUMNS cc LEFT JOIN SYS.EXA_ALL_COLUMNS c ON c.COLUMN_SCHEMA = cc.CONSTRAINT_SCHEMA AND c.COLUMN_TABLE = cc.CONSTRAINT_TABLE AND c.COLUMN_NAME = cc.COLUMN_NAME WHERE cc.CONSTRAINT_TYPE = 'PRIMARY KEY' AND cc.CONSTRAINT_TABLE = "
    ++ (literal table ++ (schema_filter schema ++ (codes " ORDER BY cc.ORDINAL_POSITION")))

unfoldable pub foreign_key_query : Text → Text → Bool → Text
unfolding literal
foreign_key_query schema table incoming =
    codes "SELECT cc.CONSTRAINT_NAME AS \"constraint_name\", cc.COLUMN_NAME AS \""
    ++ ((if incoming then codes "from_column" else codes "column_name")
        ++ (codes
              "\", cc.CONSTRAINT_SCHEMA AS \"from_schema\", cc.CONSTRAINT_TABLE AS \"from_table\", cc.REFERENCED_COLUMN AS \"to_column\", cc.REFERENCED_TABLE AS \"to_table\", cc.REFERENCED_SCHEMA AS \"to_schema\", 'NO ACTION' AS \"update_rule\", 'NO ACTION' AS \"delete_rule\", cc.ORDINAL_POSITION AS \"ordinal_position\" FROM SYS.EXA_ALL_CONSTRAINT_COLUMNS cc WHERE cc.CONSTRAINT_TYPE = 'FOREIGN KEY' AND "
            ++ ((if incoming then codes "cc.REFERENCED_SCHEMA" else codes "cc.CONSTRAINT_SCHEMA")
                ++ (codes " = "
                    ++ (literal schema
                        ++ (codes " AND "
                            ++ ((if incoming
                                  then codes "cc.REFERENCED_TABLE"
                                  else codes "cc.CONSTRAINT_TABLE")
                                ++ (codes " = "
                                    ++ (literal table
                                        ++ (codes
                                            " ORDER BY cc.CONSTRAINT_NAME, cc.ORDINAL_POSITION"))))))))))

unfoldable pub create_table_script_query : Text → Text → Text
unfolding literal
create_table_script_query schema table =
    codes
      "SELECT 'CREATE TABLE \"' || cols.COLUMN_SCHEMA || '\".\"' || cols.COLUMN_TABLE || '\" (' || CHR(10) || cols.col_defs || CHR(10) || ');' || CASE WHEN pk.pk_cols IS NOT NULL THEN CHR(10) || 'ALTER TABLE \"' || cols.COLUMN_SCHEMA || '\".\"' || cols.COLUMN_TABLE || '\" ADD PRIMARY KEY (' || pk.pk_cols || ');' ELSE '' END AS \"createtable\" FROM (SELECT COLUMN_SCHEMA, COLUMN_TABLE, LISTAGG('  \"' || COLUMN_NAME || '\" ' || COLUMN_TYPE || CASE WHEN COLUMN_IS_NULLABLE THEN '' ELSE ' NOT NULL' END || CASE WHEN COLUMN_DEFAULT IS NOT NULL THEN ' DEFAULT ' || COLUMN_DEFAULT ELSE '' END, ',' || CHR(10)) WITHIN GROUP (ORDER BY COLUMN_ORDINAL_POSITION) AS col_defs FROM SYS.EXA_ALL_COLUMNS WHERE COLUMN_SCHEMA = "
    ++ (literal schema
        ++ (codes " AND COLUMN_TABLE = "
            ++ (literal table
                ++ (codes
                      " GROUP BY COLUMN_SCHEMA, COLUMN_TABLE) cols LEFT JOIN (SELECT CONSTRAINT_SCHEMA, CONSTRAINT_TABLE, LISTAGG('\"' || COLUMN_NAME || '\"', ', ') WITHIN GROUP (ORDER BY ORDINAL_POSITION) AS pk_cols FROM SYS.EXA_ALL_CONSTRAINT_COLUMNS WHERE CONSTRAINT_TYPE = 'PRIMARY KEY' AND CONSTRAINT_SCHEMA = "
                    ++ (literal schema
                        ++ (codes " AND CONSTRAINT_TABLE = "
                            ++ (literal table
                                ++ (codes
                                    " GROUP BY CONSTRAINT_SCHEMA, CONSTRAINT_TABLE) pk ON pk.CONSTRAINT_SCHEMA = cols.COLUMN_SCHEMA AND pk.CONSTRAINT_TABLE = cols.COLUMN_TABLE"))))))))
