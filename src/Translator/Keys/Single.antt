-- ===== src/Translator/Keys/Single.antt =====
-- The queries on the keys and the definition of one table are single statements.
use exa_postgres_interface.Base.{Bool, true, false, [], ◌∷◌, Option, none, some, refl}
use exa_postgres_interface.Base.Text.{Text, codes}
use exa_postgres_interface.Session.Simple.{split_from, sql_string_literal}
use exa_postgres_interface.Session.Catalog.Single.{IsSingle, template-IsSingle}
use exa_postgres_interface.Translator.Keys.{
  literal, schema_filter, primary_key_query, foreign_key_query, create_table_script_query,
}

primary_key_query-IsSingle :
    (schema : Option Text) (table : Text) → IsSingle (primary_key_query schema table)
unfolding primary_key_query schema_filter literal sql_string_literal split_from
primary_key_query-IsSingle none table =
    template-IsSingle
      ((
        codes
            "SELECT cc.COLUMN_NAME AS \"column_name\", c.COLUMN_TYPE AS \"data_type\", cc.ORDINAL_POSITION AS \"position\" FROM SYS.EXA_ALL_CONSTRAINT_COLUMNS cc LEFT JOIN SYS.EXA_ALL_COLUMNS c ON c.COLUMN_SCHEMA = cc.CONSTRAINT_SCHEMA AND c.COLUMN_TABLE = cc.CONSTRAINT_TABLE AND c.COLUMN_NAME = cc.COLUMN_NAME WHERE cc.CONSTRAINT_TYPE = 'PRIMARY KEY' AND cc.CONSTRAINT_TABLE = ",
        table,
      )
        ∷ [])
      (codes " ORDER BY cc.ORDINAL_POSITION") (((λ _ _. refl), (λ _. refl)), tt) ((λ _. refl), refl)
primary_key_query-IsSingle (some schema) table =
    template-IsSingle
      ((
        codes
            "SELECT cc.COLUMN_NAME AS \"column_name\", c.COLUMN_TYPE AS \"data_type\", cc.ORDINAL_POSITION AS \"position\" FROM SYS.EXA_ALL_CONSTRAINT_COLUMNS cc LEFT JOIN SYS.EXA_ALL_COLUMNS c ON c.COLUMN_SCHEMA = cc.CONSTRAINT_SCHEMA AND c.COLUMN_TABLE = cc.CONSTRAINT_TABLE AND c.COLUMN_NAME = cc.COLUMN_NAME WHERE cc.CONSTRAINT_TYPE = 'PRIMARY KEY' AND cc.CONSTRAINT_TABLE = ",
        table,
      )
        ∷ (codes " AND cc.CONSTRAINT_SCHEMA = ", schema)
        ∷ [])
      (codes " ORDER BY cc.ORDINAL_POSITION")
      (((λ _ _. refl), (λ _. refl)), (((λ _ _. refl), (λ _. refl)), tt)) ((λ _. refl), refl)

foreign_key_query-IsSingle :
    (schema table : Text) (incoming : Bool) → IsSingle (foreign_key_query schema table incoming)
unfolding foreign_key_query literal sql_string_literal split_from
foreign_key_query-IsSingle schema table true =
    template-IsSingle
      ((
        codes
            "SELECT cc.CONSTRAINT_NAME AS \"constraint_name\", cc.COLUMN_NAME AS \"from_column\", cc.CONSTRAINT_SCHEMA AS \"from_schema\", cc.CONSTRAINT_TABLE AS \"from_table\", cc.REFERENCED_COLUMN AS \"to_column\", cc.REFERENCED_TABLE AS \"to_table\", cc.REFERENCED_SCHEMA AS \"to_schema\", 'NO ACTION' AS \"update_rule\", 'NO ACTION' AS \"delete_rule\", cc.ORDINAL_POSITION AS \"ordinal_position\" FROM SYS.EXA_ALL_CONSTRAINT_COLUMNS cc WHERE cc.CONSTRAINT_TYPE = 'FOREIGN KEY' AND cc.REFERENCED_SCHEMA = ",
        schema,
      )
        ∷ (codes " AND cc.REFERENCED_TABLE = ", table)
        ∷ [])
      (codes " ORDER BY cc.CONSTRAINT_NAME, cc.ORDINAL_POSITION")
      (((λ _ _. refl), (λ _. refl)), (((λ _ _. refl), (λ _. refl)), tt)) ((λ _. refl), refl)
foreign_key_query-IsSingle schema table false =
    template-IsSingle
      ((
        codes
            "SELECT cc.CONSTRAINT_NAME AS \"constraint_name\", cc.COLUMN_NAME AS \"column_name\", cc.CONSTRAINT_SCHEMA AS \"from_schema\", cc.CONSTRAINT_TABLE AS \"from_table\", cc.REFERENCED_COLUMN AS \"to_column\", cc.REFERENCED_TABLE AS \"to_table\", cc.REFERENCED_SCHEMA AS \"to_schema\", 'NO ACTION' AS \"update_rule\", 'NO ACTION' AS \"delete_rule\", cc.ORDINAL_POSITION AS \"ordinal_position\" FROM SYS.EXA_ALL_CONSTRAINT_COLUMNS cc WHERE cc.CONSTRAINT_TYPE = 'FOREIGN KEY' AND cc.CONSTRAINT_SCHEMA = ",
        schema,
      )
        ∷ (codes " AND cc.CONSTRAINT_TABLE = ", table)
        ∷ [])
      (codes " ORDER BY cc.CONSTRAINT_NAME, cc.ORDINAL_POSITION")
      (((λ _ _. refl), (λ _. refl)), (((λ _ _. refl), (λ _. refl)), tt)) ((λ _. refl), refl)

create_table_script_query-IsSingle :
    (schema table : Text) → IsSingle (create_table_script_query schema table)
unfolding create_table_script_query literal sql_string_literal split_from
create_table_script_query-IsSingle schema table =
    template-IsSingle
      ((
        codes
            "SELECT 'CREATE TABLE \"' || cols.COLUMN_SCHEMA || '\".\"' || cols.COLUMN_TABLE || '\" (' || CHR(10) || cols.col_defs || CHR(10) || ');' || CASE WHEN pk.pk_cols IS NOT NULL THEN CHR(10) || 'ALTER TABLE \"' || cols.COLUMN_SCHEMA || '\".\"' || cols.COLUMN_TABLE || '\" ADD PRIMARY KEY (' || pk.pk_cols || ');' ELSE '' END AS \"createtable\" FROM (SELECT COLUMN_SCHEMA, COLUMN_TABLE, LISTAGG('  \"' || COLUMN_NAME || '\" ' || COLUMN_TYPE || CASE WHEN COLUMN_IS_NULLABLE THEN '' ELSE ' NOT NULL' END || CASE WHEN COLUMN_DEFAULT IS NOT NULL THEN ' DEFAULT ' || COLUMN_DEFAULT ELSE '' END, ',' || CHR(10)) WITHIN GROUP (ORDER BY COLUMN_ORDINAL_POSITION) AS col_defs FROM SYS.EXA_ALL_COLUMNS WHERE COLUMN_SCHEMA = ",
        schema,
      )
        ∷ (codes " AND COLUMN_TABLE = ", table)
        ∷ (
          codes
              " GROUP BY COLUMN_SCHEMA, COLUMN_TABLE) cols LEFT JOIN (SELECT CONSTRAINT_SCHEMA, CONSTRAINT_TABLE, LISTAGG('\"' || COLUMN_NAME || '\"', ', ') WITHIN GROUP (ORDER BY ORDINAL_POSITION) AS pk_cols FROM SYS.EXA_ALL_CONSTRAINT_COLUMNS WHERE CONSTRAINT_TYPE = 'PRIMARY KEY' AND CONSTRAINT_SCHEMA = ",
          schema,
        )
        ∷ (codes " AND CONSTRAINT_TABLE = ", table)
        ∷ [])
      (codes
        " GROUP BY CONSTRAINT_SCHEMA, CONSTRAINT_TABLE) pk ON pk.CONSTRAINT_SCHEMA = cols.COLUMN_SCHEMA AND pk.CONSTRAINT_TABLE = cols.COLUMN_TABLE")
      (
        ((λ _ _. refl), (λ _. refl)),
        (
          ((λ _ _. refl), (λ _. refl)),
          (((λ _ _. refl), (λ _. refl)), (((λ _ _. refl), (λ _. refl)), tt)),
        ),
      )
      ((λ _. refl), refl)

-- The query on the primary key of a table, those on the foreign keys from it and to it, and the query on
-- its definition (primary_key_query, foreign_key_query, create_table_script_query) are one statement at
-- most, whatever the names of the schema and the table: no quote or semicolon in them ends it.
pub key_queries-IsSingle :
    (schema : Option Text) (table owner : Text) (incoming : Bool)
    → IsSingle (primary_key_query schema table)
      × IsSingle (foreign_key_query owner table incoming)
      × IsSingle (create_table_script_query owner table)
key_queries-IsSingle schema table owner incoming = (
  primary_key_query-IsSingle schema table,
  foreign_key_query-IsSingle owner table incoming,
  create_table_script_query-IsSingle owner table,
)
