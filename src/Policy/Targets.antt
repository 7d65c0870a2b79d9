-- ===== src/Policy/Targets.antt =====
-- The targets of CREATE, ALTER and DROP.
use exa_postgres_interface.Base.{if◌then◌else◌, ◌++◌}
use exa_postgres_interface.Base.Text.{Text, codes}
use exa_postgres_interface.Policy.Plan.{StatementPlan, RowCountPolicy}
use exa_postgres_interface.Policy.Words.{
  is_one_of, second_keyword, execute, reject, unsupported_policy, unsupported_no_equivalent,
}

unfoldable pub classify_create : Text → StatementPlan
unfolding second_keyword unsupported_policy unsupported_no_equivalent
classify_create sql =
    let target = second_keyword sql in
    if is_one_of target "TABLE"
    then execute "CREATE TABLE" RowCountPolicy.omit
    else if is_one_of target "VIEW"
    then execute "CREATE VIEW" RowCountPolicy.omit
    else if is_one_of target "SCHEMA"
    then execute "CREATE SCHEMA" RowCountPolicy.omit
    else if is_one_of target "ROLE USER"
    then unsupported_policy (
        codes
          "role and user creation require explicit PostgreSQL-to-Exasol privilege mapping before they can be exposed")
    else if is_one_of target "FUNCTION PROCEDURE SCRIPT"
    then unsupported_policy (
        codes
          "routine creation requires explicit PostgreSQL-to-Exasol routine mapping before it can be exposed")
    else if is_one_of target
        "INDEX EXTENSION PUBLICATION SUBSCRIPTION POLICY RULE EVENT TRIGGER TABLESPACE SERVER FOREIGN ACCESS TEXT OPERATOR LANGUAGE CAST COLLATION CONVERSION DOMAIN TYPE STATISTICS TRANSFORM"
    then unsupported_no_equivalent (
        codes "PostgreSQL CREATE "
        ++ target
        ++ codes " has no supported Exasol equivalent in this gateway")
    else reject "0A000" (codes "unsupported PostgreSQL CREATE target: " ++ target)

unfoldable pub classify_alter : Text → StatementPlan
unfolding second_keyword unsupported_policy unsupported_no_equivalent
classify_alter sql =
    let target = second_keyword sql in
    if is_one_of target "TABLE"
    then execute "ALTER TABLE" RowCountPolicy.omit
    else if is_one_of target "VIEW"
    then execute "ALTER VIEW" RowCountPolicy.omit
    else if is_one_of target "SCHEMA"
    then execute "ALTER SCHEMA" RowCountPolicy.omit
    else if is_one_of target "ROLE USER"
    then unsupported_policy (
        codes
          "role and user alteration require explicit PostgreSQL-to-Exasol privilege mapping before they can be exposed")
    else if is_one_of target "SYSTEM"
    then unsupported_policy
        (codes "ALTER SYSTEM is not exposed through the PostgreSQL gateway policy")
    else if is_one_of target
        "FUNCTION PROCEDURE ROUTINE EXTENSION PUBLICATION SUBSCRIPTION POLICY RULE EVENT TRIGGER TABLESPACE SERVER FOREIGN ACCESS TEXT OPERATOR LANGUAGE COLLATION CONVERSION DOMAIN TYPE STATISTICS"
    then unsupported_no_equivalent (
        codes "PostgreSQL ALTER "
        ++ target
        ++ codes " has no supported Exasol equivalent in this gateway")
    else reject "0A000" (codes "unsupported PostgreSQL ALTER target: " ++ target)

unfoldable pub classify_drop : Text → StatementPlan
unfolding second_keyword unsupported_policy unsupported_no_equivalent
classify_drop sql =
    let target = second_keyword sql in
    if is_one_of target "TABLE"
    then execute "DROP TABLE" RowCountPolicy.omit
    else if is_one_of target "VIEW"
    then execute "DROP VIEW" RowCountPolicy.omit
    else if is_one_of target "SCHEMA"
    then execute "DROP SCHEMA" RowCountPolicy.omit
    else if is_one_of target "ROLE USER"
    then unsupported_policy (
        codes
          "role and user dropping require explicit PostgreSQL-to-Exasol privilege mapping before they can be exposed")
    else if is_one_of target "FUNCTION PROCEDURE SCRIPT"
    then unsupported_policy (
        codes
          "routine dropping requires explicit PostgreSQL-to-Exasol routine mapping before it can be exposed")
    else if is_one_of target
        "INDEX EXTENSION PUBLICATION SUBSCRIPTION POLICY RULE EVENT TRIGGER TABLESPACE SERVER FOREIGN ACCESS TEXT OPERATOR LANGUAGE CAST COLLATION CONVERSION DOMAIN TYPE STATISTICS TRANSFORM OWNED"
    then unsupported_no_equivalent (
        codes "PostgreSQL DROP "
        ++ target
        ++ codes " has no supported Exasol equivalent in this gateway")
    else reject "0A000" (codes "unsupported PostgreSQL DROP target: " ++ target)
