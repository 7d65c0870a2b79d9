-- ===== src/Policy/Served/Classified.antt =====
-- What `classify_statement` of src/policy.rs has the database run: a statement of a class that is served.
use exa_postgres_interface.Base.{
  ◌||◌, if◌then◌else◌, Bool-cases, inl, inr, Option, Option-cases, none, some, ◌≡◌, refl, sym,
}
use exa_postgres_interface.Base.Text.{Text, is_empty}
use exa_postgres_interface.Policy.Plan.{StatementPlan, RowCountPolicy}
use exa_postgres_interface.Policy.Regexes.{Regexes}
use exa_postgres_interface.Policy.Words.{normalize_sql, first_keyword, second_keyword}
use exa_postgres_interface.Policy.Local.{is_safe_set}
use exa_postgres_interface.Policy.Classify.{
  set_search_path_re, reset_re, classify_statement, classify_cleaned,
}
use exa_postgres_interface.Policy.Kept.{
  IsKept, local_show-IsKept, local_select-IsKept, search_path_plan-kept,
}
use exa_postgres_interface.Policy.Served.{
  IsServed, IsServedPlan, when◌hence◌else◌, classify_keyword-IsServed, not_true,
}

-- A plan that was given by `o`, if there is one, and otherwise `rest`.
answered_or :
    {cleaned : Text} {o : Option StatementPlan} (rest : StatementPlan)
    → IsKept o
    → IsServedPlan cleaned rest
    → IsServedPlan cleaned (elim o [ some plan ↦ plan | none ↦ rest ])
answered_or rest IsKept.unanswered h = h
answered_or rest (IsKept.answered f) h = IsServedPlan.kept f

classify_cleaned-IsServed :
    (r : Regexes) (cleaned : Text) → IsServedPlan cleaned (classify_cleaned r cleaned)
unfolding classify_cleaned
classify_cleaned-IsServed r cleaned =
    when is_empty cleaned
    hence (λ h. IsServedPlan.kept refl)
    else elim (Option-cases (r.captures set_search_path_re cleaned)) [
      | inr (group, f) ↦ rw f (IsServedPlan.kept (search search_path_plan-kept))
      | inl f ↦ elim (Bool-cases (is_safe_set r cleaned || r.is_match reset_re cleaned)) [
        | inl g ↦ rw (f, g) (IsServedPlan.kept refl)
        | inr g ↦
            rw (f, g)
              (answered_or _ (local_show-IsKept r cleaned) (
                answered_or _ (local_select-IsKept r cleaned)
                  (classify_keyword-IsServed cleaned r)))
      ]
    ]

IsServedPlan-IsServed :
    (cleaned : Text) (plan : StatementPlan) (command : Text) (rows : RowCountPolicy)
    → IsServedPlan cleaned plan
    → plan ≡ StatementPlan.execute command rows
    → IsServed (first_keyword cleaned) (second_keyword cleaned) command rows
IsServedPlan-IsServed cleaned plan command rows (IsServedPlan.executed c s h e) same =
    let same_command : c ≡ command = cc in
    let same_rows : s ≡ rows = cc in rw (same_command, same_rows) at h
IsServedPlan-IsServed cleaned plan command rows (IsServedPlan.kept f) same =
    absurd (not_true (sym (rw same at f)))

-- A statement that is classified as one to execute is of a class that is served, in whatever words its text
-- goes on: its first keyword, after comments and trailing semicolons are gone, is SELECT, WITH or VALUES;
-- INSERT, UPDATE, DELETE or MERGE, whose rows are counted; TRUNCATE, COMMENT, GRANT or REVOKE; or CREATE,
-- ALTER or DROP with TABLE, VIEW or SCHEMA as its target. The command of its tag is the one of this class.
pub classify_statement-IsServed :
    (r : Regexes) (sql command : Text) (rows : RowCountPolicy)
    → classify_statement r sql ≡ StatementPlan.execute command rows
    → IsServed
        (first_keyword (normalize_sql r sql))
        (second_keyword (normalize_sql r sql))
        command
        rows
unfolding classify_statement
classify_statement-IsServed r sql command rows h =
    IsServedPlan-IsServed (normalize_sql r sql) _ command rows
      (classify_cleaned-IsServed r (normalize_sql r sql)) h
