-- ===== src/Policy/Kept.antt =====
-- The plans of src/policy.rs that are not to be executed: those of cursors, of settings and of the queries
-- that need no database.
use exa_postgres_interface.Base.{
  Bool, true, false, ◌||◌, ◌∷◌, [], if◌then◌else◌, inl, inr, Option, Option-cases, List, none, some,
  map, ◌==◌, ◌≡◌, refl, arith,
}
use exa_postgres_interface.Base.Text.{
  Text, codes, text_eq, split_whitespace, contains, trim, to_ascii_lowercase, starts_with,
}
use exa_postgres_interface.Policy.Plan.{StatementPlan, CursorPlan, CursorPosition}
use exa_postgres_interface.Policy.Regexes.{Regexes}
use exa_postgres_interface.Policy.Words.{unsupported_policy}
use exa_postgres_interface.Policy.Cursors.{
  classify_declare_cursor, classify_cursor_position, classify_close_cursor, declare_plan,
  close_token, parse_cursor_position, declare_cursor_re,
}
use exa_postgres_interface.Policy.Catalog.{catalog_pg_settings, catalog_response_many}
use exa_postgres_interface.Policy.Local.{
  local_show, local_select, show_value, single_value, show_re,
}
use exa_postgres_interface.Policy.Classify.{search_path_plan}
use exa_postgres_interface.Policy.SearchPath.{SearchPathTarget}

abbrev pub is_execute : StatementPlan → Bool
is_execute (StatementPlan.execute command rows) = true
is_execute _ = false

pub declare_plan-kept :
    (r : Regexes) (name options : Text) (hold : Bool) (query : Text)
    → is_execute (declare_plan r name options hold query) ≡ false
unfolding declare_plan unsupported_policy
declare_plan-kept r name options hold query = ground arith

pub classify_declare_cursor-kept :
    (r : Regexes) (cleaned : Text) → is_execute (classify_declare_cursor r cleaned) ≡ false
unfolding classify_declare_cursor
classify_declare_cursor-kept r cleaned =
    elim (Option-cases (r.captures declare_cursor_re cleaned)) [
      | inl f ↦ rw (f, classify_declare_cursor) refl
      | inr (group, f) ↦ rw (f, classify_declare_cursor) (search declare_plan-kept)
    ]

pub classify_cursor_position-kept :
    (command : Text) (plan : CursorPosition → CursorPlan) (cleaned : Text)
    → is_execute (classify_cursor_position command plan cleaned) ≡ false
unfolding classify_cursor_position
classify_cursor_position-kept command plan cleaned =
    elim (Option-cases (parse_cursor_position command cleaned)) [
      | inl f ↦ rw (f, classify_cursor_position) refl
      | inr (position, f) ↦ rw (f, classify_cursor_position) refl
    ]

close_token-kept : (tokens : List Text) → is_execute (close_token tokens) ≡ false
close_token-kept [] = refl
close_token-kept (a ∷ []) = refl
close_token-kept (a ∷ b ∷ []) = refl
close_token-kept (a ∷ b ∷ c ∷ s) = refl

pub classify_close_cursor-kept :
    (cleaned : Text) → is_execute (classify_close_cursor cleaned) ≡ false
unfolding classify_close_cursor
classify_close_cursor-kept cleaned = close_token-kept (split_whitespace cleaned)

pub data IsKept : Option StatementPlan → Type 0 where
  unanswered : IsKept none
  answered : {plan : StatementPlan} → is_execute plan ≡ false → IsKept (some plan)

infix 1 if◌answer◌else◌
if◌answer◌else◌ :
    (b : Bool) {x y : Option StatementPlan} → IsKept x → IsKept y → IsKept (if b then x else y)
if true answer f else g = f
if false answer f else g = g

show_value-IsKept :
    (name key : Text)
    → IsKept (elim (show_value key) [
      | none ↦ none
      | some value ↦ some (StatementPlan.client_show name value)
    ])
show_value-IsKept name key = elim (Option-cases (show_value key)) [
  | inl f ↦ rw f unanswered
  | inr (value, f) ↦ rw f (answered refl)
]

pub local_show-IsKept : (r : Regexes) (cleaned : Text) → IsKept (local_show r cleaned)
unfolding local_show
local_show-IsKept r cleaned = elim (Option-cases (r.captures show_re cleaned)) [
  | inl f ↦ rw (f, local_show) unanswered
  | inr (group, f) ↦ elim (Option-cases (group (codes "1"))) [
    | inl g ↦ rw (f, g, local_show) unanswered
    | inr (m, g) ↦
        let key =
          to_ascii_lowercase (map (λ c. if c == b' ' || c == b'-' then b'_' else c) (trim m)) in
        rw (f, g, local_show)
          (if text_eq key (codes "search_path")
            answer answered refl
            else show_value-IsKept (trim m) key)
  ]
]

catalog_pg_settings-kept :
    (r : Regexes) (sql : Text) → is_execute (catalog_pg_settings r sql) ≡ false
unfolding catalog_pg_settings catalog_response_many
catalog_pg_settings-kept r sql = ground arith

pub local_select-IsKept : (r : Regexes) (cleaned : Text) → IsKept (local_select r cleaned)
unfolding local_select single_value
local_select-IsKept r cleaned =
    let lower = to_ascii_lowercase cleaned in
    if contains lower (codes "pg_catalog.pg_settings") || contains lower (codes " pg_settings")
    answer answered (catalog_pg_settings-kept r cleaned)
    else if text_eq lower (codes "select version()")
    answer answered refl
    else if text_eq lower (codes "select current_database()")
    answer answered refl
    else if text_eq lower (codes "select current_catalog")
        || text_eq lower (codes "select current_catalog()")
    answer answered refl
    else if text_eq lower (codes "select current_user") || text_eq lower (codes "select user")
    answer answered refl
    else if text_eq lower (codes "select pg_backend_pid()")
        || starts_with lower (codes "select pg_backend_pid() as ")
    answer answered refl
    else unanswered

pub search_path_plan-kept :
    (target : SearchPathTarget) → is_execute (search_path_plan target) ≡ false
unfolding search_path_plan
search_path_plan-kept (SearchPathTarget.single schema) = refl
search_path_plan-kept SearchPathTarget.default = refl
search_path_plan-kept SearchPathTarget.invalid = refl
