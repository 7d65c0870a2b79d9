-- ===== src/Policy/Local.antt =====
-- SET, SHOW and SELECT statements that the gateway answers itself.
use exa_postgres_interface.Base.{
  ◌+◌, Bool, true, false, ◌||◌, ◌==◌, if◌then◌else◌, [], ◌∷◌, map, Option, none, some, length, drop,
}
use exa_postgres_interface.Base.Text.{
  Text, codes, is_empty, text_eq, trim, contains, starts_with, to_ascii_lowercase, split_once,
}
use exa_postgres_interface.Policy.Plan.{StatementPlan}
use exa_postgres_interface.Policy.Regexes.{Regexes}
use exa_postgres_interface.Policy.Words.{is_one_of, unquote_identifier}
use exa_postgres_interface.Policy.Catalog.{catalog_pg_settings}

abbrev set_assign_re : Text
set_assign_re = codes "(?i)^SET\\s+(SESSION\\s+)?[A-Za-z_][A-Za-z0-9_.]*\\s*(=|TO)\\s*\\S"

abbrev set_characteristics_re : Text
set_characteristics_re = codes "(?i)^SET\\s+SESSION\\s+CHARACTERISTICS\\s+AS\\s+TRANSACTION\\b"

abbrev set_transaction_re : Text
set_transaction_re = codes "(?i)^SET\\s+(SESSION\\s+)?TRANSACTION\\b"

abbrev pub show_re : Text
show_re = codes "(?i)^SHOW\\s+([A-Za-z_][A-Za-z0-9_ .-]*)$"

unfoldable pub is_safe_set : Regexes → Text → Bool
is_safe_set r sql =
    if r.is_match set_characteristics_re sql
    then true
    else if r.is_match set_transaction_re sql
    then false
    else r.is_match set_assign_re sql

-- The value of a setting that SHOW may name, under the key in lower case.
unfoldable pub show_value : Text → Option Text
show_value key =
    if is_one_of key "datestyle"
    then some (codes "ISO, YMD")
    else if is_one_of key "timezone time_zone"
    then some (codes "Etc/UTC")
    else if is_one_of key "transaction_isolation transaction_isolation_level"
    then some (codes "read committed")
    else if is_one_of key "transaction_read_only"
    then some (codes "off")
    else if is_one_of key "standard_conforming_strings"
    then some (codes "on")
    else if is_one_of key "client_encoding"
    then some (codes "UTF8")
    else if is_one_of key "server_version"
    then some (codes "16.6-exasol-gateway")
    else if is_one_of key "application_name"
    then some []
    else none

unfoldable pub local_show : Regexes → Text → Option StatementPlan
unfolding trim to_ascii_lowercase show_value
local_show r sql = elim (r.captures show_re sql) [
  | none ↦ none
  | some group ↦ elim (group (codes "1")) [
    | none ↦ none
    | some m ↦
        let raw_name = trim m in
        let key =
          to_ascii_lowercase (map (λ c. if c == b' ' || c == b'-' then b'_' else c) raw_name) in
        if text_eq key (codes "search_path")
        then some StatementPlan.show_search_path
        else elim (show_value key) [
          | none ↦ none
          | some value ↦ some (StatementPlan.client_show raw_name value)
        ]
  ]
]

unfoldable pub single_value : Text → Text → StatementPlan
single_value name value = StatementPlan.client_select (name ∷ []) ((some value ∷ []) ∷ [])

-- The alias of pg_backend_pid(), from the text behind the first AS.
unfoldable pub backend_pid_column : Text → Text
unfolding to_ascii_lowercase split_once unquote_identifier
backend_pid_column sql = elim (split_once (codes " as ") (to_ascii_lowercase sql)) [
  | none ↦ codes "pg_backend_pid"
  | some (before, _) ↦
      let name = unquote_identifier (drop (length before + 4) sql) in
      if is_empty name then codes "pg_backend_pid" else name
]

unfoldable pub local_select : Regexes → Text → Option StatementPlan
unfolding to_ascii_lowercase contains catalog_pg_settings single_value backend_pid_column
local_select r sql =
    let lower = to_ascii_lowercase sql in
    if contains lower (codes "pg_catalog.pg_settings") || contains lower (codes " pg_settings")
    then some (catalog_pg_settings r sql)
    else if text_eq lower (codes "select version()")
    then some (single_value (codes "version") (codes "PostgreSQL 16.6 compatible Exasol gateway"))
    else if text_eq lower (codes "select current_database()")
    then some (single_value (codes "current_database") (codes "exasol"))
    else if text_eq lower (codes "select current_catalog")
        || text_eq lower (codes "select current_catalog()")
    then some (single_value (codes "current_catalog") (codes "exasol"))
    else if text_eq lower (codes "select current_user") || text_eq lower (codes "select user")
    then some (single_value (codes "current_user") (codes "sys"))
    else if text_eq lower (codes "select pg_backend_pid()")
        || starts_with lower (codes "select pg_backend_pid() as ")
    then some (StatementPlan.backend_pid (backend_pid_column sql))
    else none
