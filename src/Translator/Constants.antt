-- ===== src/Translator/Constants.antt =====
-- The tables of src/translator.rs: the reserved words of Exasol, the functions of the catalog and the
-- columns of the information schema. Lists of words are parted by blanks.
use exa_postgres_interface.Base.{List, [], ◌∷◌}
use exa_postgres_interface.Base.Text.{Text, codes, split_whitespace}

abbrev pub reserved_alias_words : List Text
reserved_alias_words = split_whitespace (
    codes
      "absolute action add after all allocate alter and any append are array as asc asensitive assertion at attribute authid authorization before begin between bigint binary bit blob blocked bool boolean both by byte call called cardinality cascade cascaded case casespecific cast catalog chain char character character_set_catalog character_set_name character_set_schema characteristics check checked clob close coalesce collate collation collation_catalog collation_name collation_schema column commit condition connect_by_iscycle connect_by_isleaf connect_by_root connection constant constraint constraint_state_default constraints constructor contains continue control convert corresponding create cs csv cube current current_cluster current_cluster_uid current_date current_path current_role current_schema current_session current_statement current_time current_timestamp current_user cursor cycle data datalink date datetime_interval_code datetime_interval_precision day dbtimezone deallocate dec decimal declare default default_like_escape_character deferrable deferred defined definer delete deref derived desc describe descriptor deterministic disable disabled disconnect dispatch distinct dlurlcomplete dlurlpath dlurlpathonly dlurlscheme dlurlserver dlvalue do domain double drop dynamic dynamic_function dynamic_function_code each else elseif elsif emits enable enabled end endif enforce equals errors escape except exception exec execute exists exit export external extract false fbv fetch file final first float following for forall force format found free from fs full function general generated geometry get global go goto grant granted group group_concat grouping groups hashtype hashtype_format having high hold hour identity if ifnull immediate impersonate implementation import in index indicator inner inout input insensitive insert instance instantiable int integer integrity intersect interval into inverse invoker is iterate join key_member key_type large last lateral ldap leading leave left level like limit listagg local localtime localtimestamp locator log longvarchar loop low map match matched merge method minus minute mod modifies modify module month names national natural nchar nclob new next nls_date_format nls_date_language nls_first_day_of_week nls_numeric_characters nls_timestamp_format no nocycle nologging none not null nullif number numeric nvarchar nvarchar2 object of off old on only open option options or order ordering ordinality others out outer output over overlaps overlay overriding pad parallel_enable parameter parameter_specific_catalog parameter_specific_name parameter_specific_schema parquet partial path permission placing plus position preceding preferring prepare preserve prior privileges procedure profile qualify random range read reads real recovery recursive ref references referencing refresh regexp_like relative release rename repeat replace restore restrict result return returned_length returned_octet_length returns revoke right rollback rollup routine row rows rowtype savepoint schema scope scope_user script scroll search second section security select selective self sensitive separator sequence session session_user sessiontimezone set sets shortint similar smallint some source space specific specifictype sql sql_bigint sql_bit sql_char sql_date sql_decimal sql_double sql_float sql_integer sql_longvarchar sql_numeric sql_preprocessor_script sql_real sql_smallint sql_timestamp sql_tinyint sql_type_date sql_type_timestamp sql_varchar sqlexception sqlstate sqlwarning start state statement static structure style substring subtype sysdate system system_user systimestamp table temporary text then time timestamp timezone_hour timezone_minute tinyint to trailing transaction transform transforms translation treat trigger trim true truncate under union unique unknown unlink unnest until update usage user using value values varchar varchar2 varray verify view when whenever where while window with within without work year yes zone")

abbrev pub function_replacements : List (Text × Text)
function_replacements =
    (codes "format_type", codes "PG_CATALOG.FORMAT_TYPE")
    ∷ (codes "pg_identify_object", codes "PG_CATALOG.PG_IDENTIFY_OBJECT")
    ∷ (codes "pg_get_functiondef", codes "PG_CATALOG.PG_GET_FUNCTIONDEF")
    ∷ (codes "pg_get_userbyid", codes "PG_CATALOG.PG_GET_USERBYID")
    ∷ (codes "pg_get_expr", codes "PG_CATALOG.PG_GET_EXPR")
    ∷ (codes "pg_get_constraintdef", codes "PG_CATALOG.PG_GET_CONSTRAINTDEF")
    ∷ (codes "pg_get_indexdef", codes "PG_CATALOG.PG_GET_INDEXDEF")
    ∷ (codes "oidvectortypes", codes "PG_CATALOG.OIDVECTORTYPES")
    ∷ (codes "pg_get_partkeydef", codes "PG_CATALOG.PG_GET_PARTKEYDEF")
    ∷ (codes "pg_get_ruledef", codes "PG_CATALOG.PG_GET_RULEDEF")
    ∷ (codes "pg_get_triggerdef", codes "PG_CATALOG.PG_GET_TRIGGERDEF")
    ∷ (codes "pg_get_viewdef", codes "PG_CATALOG.PG_GET_VIEWDEF")
    ∷ (codes "pg_encoding_to_char", codes "PG_CATALOG.PG_ENCODING_TO_CHAR")
    ∷ (codes "pg_total_relation_size", codes "PG_CATALOG.PG_TOTAL_RELATION_SIZE")
    ∷ (codes "pg_relation_size", codes "PG_CATALOG.PG_RELATION_SIZE")
    ∷ (codes "pg_size_pretty", codes "PG_CATALOG.PG_SIZE_PRETTY")
    ∷ (codes "pg_tablespace_size", codes "PG_CATALOG.PG_TABLESPACE_SIZE")
    ∷ (codes "pg_tablespace_location", codes "PG_CATALOG.PG_TABLESPACE_LOCATION")
    ∷ (codes "pg_stat_get_numscans", codes "PG_CATALOG.PG_STAT_GET_NUMSCANS")
    ∷ (codes "pg_stat_get_blocks_fetched", codes "PG_CATALOG.PG_STAT_GET_BLOCKS_FETCHED")
    ∷ (codes "pg_stat_get_blocks_hit", codes "PG_CATALOG.PG_STAT_GET_BLOCKS_HIT")
    ∷ (codes "to_regclass", codes "PG_CATALOG.TO_REGCLASS")
    ∷ (codes "shobj_description", codes "PG_CATALOG.SHOBJ_DESCRIPTION")
    ∷ (codes "col_description", codes "PG_CATALOG.COL_DESCRIPTION")
    ∷ (codes "has_schema_privilege", codes "PG_CATALOG.HAS_SCHEMA_PRIVILEGE")
    ∷ []

abbrev pub information_schema_columns : List Text
information_schema_columns = split_whitespace (
    codes
      "TABLE_CATALOG TABLE_SCHEMA TABLE_NAME COLUMN_NAME ORDINAL_POSITION COLUMN_DEFAULT IS_NULLABLE DATA_TYPE CHARACTER_MAXIMUM_LENGTH CHARACTER_OCTET_LENGTH NUMERIC_PRECISION NUMERIC_PRECISION_RADIX NUMERIC_SCALE DATETIME_PRECISION INTERVAL_TYPE INTERVAL_PRECISION CHARACTER_SET_CATALOG CHARACTER_SET_SCHEMA CHARACTER_SET_NAME COLLATION_CATALOG COLLATION_SCHEMA COLLATION_NAME DOMAIN_CATALOG DOMAIN_SCHEMA DOMAIN_NAME UDT_CATALOG UDT_SCHEMA UDT_NAME SCOPE_CATALOG SCOPE_SCHEMA SCOPE_NAME MAXIMUM_CARDINALITY DTD_IDENTIFIER IS_SELF_REFERENCING IS_IDENTITY IDENTITY_GENERATION IDENTITY_START IDENTITY_INCREMENT IDENTITY_MAXIMUM IDENTITY_MINIMUM IDENTITY_CYCLE IS_GENERATED GENERATION_EXPRESSION IS_UPDATABLE")
