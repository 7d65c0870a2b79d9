-- ===== src/Policy/Served.antt =====
-- The classes of statements that src/policy.rs has the database run, and the `match` on the first keyword.
pub mod Classified
use exa_postgres_interface.Base.{
  Bool, true, false, ◌||◌, ◌++◌, ◌∷◌, [], if◌then◌else◌, Bool-cases, inl, inr, Option, Option-cases,
  none, some, ◌≡◌, refl, sym, arith,
}
use exa_postgres_interface.Base.Text.{Text, codes, is_empty, text_eq, split_whitespace}
use exa_postgres_interface.Base.Text.{text_eq_iff}
use exa_postgres_interface.Policy.Plan.{StatementPlan, RowCountPolicy, CursorPlan}
use exa_postgres_interface.Policy.Regexes.{Regexes}
use exa_postgres_interface.Policy.Words.{
  is_one_of, normalize_sql, first_keyword, second_keyword, unsupported_policy,
  unsupported_no_equivalent,
}
use exa_postgres_interface.Policy.Targets.{classify_create, classify_alter, classify_drop}
use exa_postgres_interface.Policy.Local.{is_safe_set}
use exa_postgres_interface.Policy.Classify.{
  set_search_path_re, reset_re, classify_keyword, classify_statement, classify_cleaned,
}
use exa_postgres_interface.Policy.Kept.{
  is_execute, IsKept, local_show-IsKept, local_select-IsKept, search_path_plan-kept,
  classify_declare_cursor-kept, classify_cursor_position-kept, classify_close_cursor-kept,
}
use Prim.Native.String.{String}

-- The statements that are served, by their first keyword and the target behind it, with the command of
-- their tag and whether the tag counts rows.
pub data IsServed (keyword target : Text) : Text → RowCountPolicy → Type 0 where
  reading :
      is_one_of keyword "SELECT WITH VALUES" ≡ true
      → IsServed keyword target (codes "SELECT") RowCountPolicy.omit
  change :
      is_one_of keyword "INSERT UPDATE DELETE MERGE" ≡ true
      → IsServed keyword target keyword RowCountPolicy.include
  privilege :
      is_one_of keyword "COMMENT GRANT REVOKE" ≡ true
      → IsServed keyword target keyword RowCountPolicy.omit
  truncate :
      keyword ≡ codes "TRUNCATE"
      → IsServed keyword target (codes "TRUNCATE TABLE") RowCountPolicy.omit
  object :
      is_one_of keyword "CREATE ALTER DROP" ≡ true
      → is_one_of target "TABLE VIEW SCHEMA" ≡ true
      → IsServed keyword target (keyword ++ codes " " ++ target) RowCountPolicy.omit

-- A plan to execute is one of a class that is served; any other plan is kept from the database.
pub data IsServedPlan (cleaned : Text) (plan : StatementPlan) : Type 0 where
  executed :
      (command : Text) (rows : RowCountPolicy)
      → IsServed (first_keyword cleaned) (second_keyword cleaned) command rows
      → plan ≡ StatementPlan.execute command rows
      → IsServedPlan cleaned plan
  kept : is_execute plan ≡ false → IsServedPlan cleaned plan

infix 1 when◌hence◌else◌
pub when◌hence◌else◌ :
    {cleaned : Text} (b : Bool) {x y : StatementPlan}
    → (b ≡ true → IsServedPlan cleaned x)
    → IsServedPlan cleaned y
    → IsServedPlan cleaned (if b then x else y)
when true hence f else g = f refl
when false hence f else g = g

pub not_true : ¬ (false ≡ true)
not_true h = cc

is_one_of-word :
    {word : Text} (s : String)
    → split_whitespace (codes s) ≡ codes s ∷ []
    → is_one_of word s ≡ true
    → word ≡ codes s
is_one_of-word {word} s alone h = elim (Bool-cases (text_eq word (codes s))) [
  | inl same ↦ (text_eq_iff word (codes s)).0 same
  | inr other ↦ absurd (not_true (rw (alone, other) at h))
]

module _ (cleaned : Text) where
  served :
      {command : Text} {rows : RowCountPolicy}
      → IsServed (first_keyword cleaned) (second_keyword cleaned) command rows
      → IsServedPlan cleaned (StatementPlan.execute command rows)
  served {command} {rows} h = executed command rows h refl

  refused : (sqlstate message : Text) → IsServedPlan cleaned (StatementPlan.reject sqlstate message)
  refused sqlstate message = kept refl

  on_object :
      (verb noun : String)
      → is_one_of (codes verb) "CREATE ALTER DROP" ≡ true
      → is_one_of (codes noun) "TABLE VIEW SCHEMA" ≡ true
      → split_whitespace (codes noun) ≡ codes noun ∷ []
      → first_keyword cleaned ≡ codes verb
      → is_one_of (second_keyword cleaned) noun ≡ true
      → IsServedPlan cleaned
          (StatementPlan.execute (codes verb ++ codes " " ++ codes noun) RowCountPolicy.omit)
  on_object verb noun v n alone k h = served (rw (k, is_one_of-word noun alone h) (object v n))

  on_objects :
      (verb : String)
      → is_one_of (codes verb) "CREATE ALTER DROP" ≡ true
      → first_keyword cleaned ≡ codes verb
      → (rest : StatementPlan) → is_execute rest ≡ false
      → IsServedPlan cleaned (
          if is_one_of (second_keyword cleaned) "TABLE"
          then StatementPlan.execute (codes verb ++ codes " " ++ codes "TABLE") RowCountPolicy.omit
          else if is_one_of (second_keyword cleaned) "VIEW"
          then StatementPlan.execute (codes verb ++ codes " " ++ codes "VIEW") RowCountPolicy.omit
          else if is_one_of (second_keyword cleaned) "SCHEMA"
          then StatementPlan.execute (codes verb ++ codes " " ++ codes "SCHEMA") RowCountPolicy.omit
          else rest)
  unfolding split_whitespace
  on_objects verb v k rest h =
      let target = second_keyword cleaned in
      when is_one_of target "TABLE"
      hence on_object verb "TABLE" v refl refl k
      else when is_one_of target "VIEW"
      hence on_object verb "VIEW" v refl refl k
      else when is_one_of target "SCHEMA"
      hence on_object verb "SCHEMA" v refl refl k
      else kept h

  classify_create-IsServed :
      first_keyword cleaned ≡ codes "CREATE" → IsServedPlan cleaned (classify_create cleaned)
  unfolding classify_create split_whitespace unsupported_policy unsupported_no_equivalent
  classify_create-IsServed k = on_objects "CREATE" refl k _ (ground arith)

  classify_alter-IsServed :
      first_keyword cleaned ≡ codes "ALTER" → IsServedPlan cleaned (classify_alter cleaned)
  unfolding classify_alter split_whitespace unsupported_policy unsupported_no_equivalent
  classify_alter-IsServed k = on_objects "ALTER" refl k _ (ground arith)

  classify_drop-IsServed :
      first_keyword cleaned ≡ codes "DROP" → IsServedPlan cleaned (classify_drop cleaned)
  unfolding classify_drop split_whitespace unsupported_policy unsupported_no_equivalent
  classify_drop-IsServed k = on_objects "DROP" refl k _ (ground arith)

module _ (cleaned : Text) where
  on_change :
      (word : String)
      → is_one_of (codes word) "INSERT UPDATE DELETE MERGE" ≡ true
      → split_whitespace (codes word) ≡ codes word ∷ []
      → is_one_of (first_keyword cleaned) word ≡ true
      → IsServedPlan cleaned (StatementPlan.execute (codes word) RowCountPolicy.include)
  on_change word known alone h = served cleaned (rw (is_one_of-word word alone h) (change known))

  on_privilege :
      (word : String)
      → is_one_of (codes word) "COMMENT GRANT REVOKE" ≡ true
      → split_whitespace (codes word) ≡ codes word ∷ []
      → is_one_of (first_keyword cleaned) word ≡ true
      → IsServedPlan cleaned (StatementPlan.execute (codes word) RowCountPolicy.omit)
  on_privilege word known alone h =
      served cleaned (rw (is_one_of-word word alone h) (privilege known))

  pub classify_keyword-IsServed : (r : Regexes) → IsServedPlan cleaned (classify_keyword r cleaned)
  unfolding classify_keyword split_whitespace unsupported_policy unsupported_no_equivalent
  classify_keyword-IsServed r =
      let keyword = first_keyword cleaned in
      when is_one_of keyword "SELECT WITH VALUES"
      hence (λ h. served cleaned (reading h))
      else when is_one_of keyword "INSERT"
      hence on_change "INSERT" refl refl
      else when is_one_of keyword "UPDATE"
      hence on_change "UPDATE" refl refl
      else when is_one_of keyword "DELETE"
      hence on_change "DELETE" refl refl
      else when is_one_of keyword "MERGE"
      hence on_change "MERGE" refl refl
      else when is_one_of keyword "TRUNCATE"
      hence (λ h. served cleaned (truncate (is_one_of-word "TRUNCATE" refl h)))
      else when is_one_of keyword "CREATE"
      hence (λ h. classify_create-IsServed cleaned (is_one_of-word "CREATE" refl h))
      else when is_one_of keyword "ALTER"
      hence (λ h. classify_alter-IsServed cleaned (is_one_of-word "ALTER" refl h))
      else when is_one_of keyword "DROP"
      hence (λ h. classify_drop-IsServed cleaned (is_one_of-word "DROP" refl h))
      else when is_one_of keyword "COMMENT"
      hence on_privilege "COMMENT" refl refl
      else when is_one_of keyword "GRANT"
      hence on_privilege "GRANT" refl refl
      else when is_one_of keyword "REVOKE"
      hence on_privilege "REVOKE" refl refl
      else kept (
          ground (
            arith,
            classify_declare_cursor-kept r cleaned,
            classify_close_cursor-kept cleaned,
            classify_cursor_position-kept (codes "FETCH") CursorPlan.fetch cleaned,
            classify_cursor_position-kept (codes "MOVE") CursorPlan.move cleaned,
          ))
