-- ===== src/Tests/Policy.antt =====
-- Instances of the theorems on the policy of statements, and tests of it.
use exa_postgres_interface.Base.{false, ◌≡◌, refl}
use exa_postgres_interface.Base.Text.{Text, codes}
use exa_postgres_interface.Policy.Plan.{RowCountPolicy}
use exa_postgres_interface.Policy.Words.{normalize_sql, first_keyword, second_keyword}
use exa_postgres_interface.Policy.Classify.{classify_statement}
use exa_postgres_interface.Policy.Kept.{is_execute}
use exa_postgres_interface.Policy.Served.{IsServed}
use exa_postgres_interface.Policy.Served.Classified.{classify_statement-IsServed}
use exa_postgres_interface.Tests.{no_regexes}

abbrev a_view : Text
a_view = codes "create or replace view v as select 1 ; "

classify_statement-IsServed_example :
    IsServed
      (first_keyword (normalize_sql no_regexes a_view))
      (second_keyword (normalize_sql no_regexes a_view))
      (codes "CREATE VIEW")
      RowCountPolicy.omit
unfolding classify_statement
classify_statement-IsServed_example =
    classify_statement-IsServed no_regexes a_view (codes "CREATE VIEW") RowCountPolicy.omit refl

-- A statement that only names a table whose name begins with pg_settings is answered and not run.
named_pg_settings :
    is_execute (classify_statement no_regexes (codes "DELETE FROM pg_settings_old")) ≡ false
unfolding classify_statement
named_pg_settings = refl
