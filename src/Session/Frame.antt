-- ===== src/Session/Frame.antt =====
-- A cursor statement leaves the cursors of other names alone.
use exa_postgres_interface.Base.{
  ℕ, Bool, true, false, Bool-cases, inl, inr, Option, none, some, Option-cases, Result-cases, ◌≡◌,
  refl, ap, ◌∙◌, subst,
}
use exa_postgres_interface.Base.Maps.{insert_other, remove_other}
use exa_postgres_interface.Base.Text.{Text, text_eq, is_some}
use exa_postgres_interface.Crates.{Crates}
use exa_postgres_interface.Policy.Plan.{CursorDeclare, CursorPosition, CursorClose, CursorPlan}
use exa_postgres_interface.Policy.Regexes.{Regexes}
use exa_postgres_interface.Policy.Classify.{classify_statement, is_cursor_unsafe_query}
use exa_postgres_interface.Cursor.{GatewayCursor, CursorStep}
use exa_postgres_interface.Cursor.Apply.{apply}
use exa_postgres_interface.Session.{
  ExasolOutcome, Database, Translator, SessionState, Client, Responses,
}
use exa_postgres_interface.Session.Cursors.{
  outcome_data, translate_client_sql, execute_client_sql, open_cursor, declare_in, step_cursor,
  fetch_cursor, move_cursor, close_cursor, on_session, declare_cursor, execute_cursor_plan,
}

-- Whether the plan is about the cursor of this name.
abbrev pub is_about : CursorPlan → Text → Bool
is_about (CursorPlan.declare declare) key = text_eq key declare.name
is_about (CursorPlan.fetch position) key = text_eq key position.name
is_about (CursorPlan.move position) key = text_eq key position.name
is_about (CursorPlan.close CursorClose.every) key = true
is_about (CursorPlan.close (CursorClose.one name)) key = text_eq key name

module _ {k : Crates} {db : Database k} where
  abbrev pub cursor_of : Option (SessionState db) → Text → Option (GatewayCursor k)
  cursor_of none key = none
  cursor_of (some s) key = s.cursors key

  -- The cursor of this name is the same in the session that a handler leaves, if it returns.
  abbrev pub IsSameAfter :
      Text → Option (SessionState db) → Option (Client db × Responses k) → Type 0
  IsSameAfter key before none = Unit
  IsSameAfter key before (some (client, _)) = cursor_of client.session key ≡ cursor_of before key

  abbrev Same : Text → SessionState db → Option (SessionState db × Responses k) → Type 0
  Same key before none = Unit
  Same key before (some (s, _)) = s.cursors key ≡ before.cursors key

  step_cursor-Same :
      (fuel : ℕ) (s : SessionState db) (position : CursorPosition) (rr : Bool)
      (response : GatewayCursor k → CursorStep k → Responses k) (key : Text)
      → text_eq key position.name ≡ false
      → Same key s (step_cursor fuel s position rr response)
  unfolding step_cursor
  step_cursor-Same fuel s position rr response key other =
      elim (Option-cases (s.cursors position.name)) [
        | inl e ↦ rw (e, step_cursor) refl
        | inr (c, e) ↦ elim (Option-cases (apply fuel c position.direction rr)) [
          | inl stuck ↦ rw (e, step_cursor) (rw stuck tt)
          | inr (answer, g) ↦ elim (Result-cases answer) [
            | inl (r, ga) ↦
                rw (e, step_cursor)
                  (rw g (rw ga (insert_other position.name key r.0 s.cursors other)))
            | inr (x, ga) ↦ rw (e, step_cursor) (rw g (rw ga refl))
          ]
        ]
      ]

  open_cursor-Same :
      (s : SessionState db) (declare : CursorDeclare) (outcome : ExasolOutcome k) (key : Text)
      → text_eq key declare.name ≡ false
      → (open_cursor s declare outcome).0.cursors key ≡ s.cursors key
  unfolding open_cursor
  open_cursor-Same s declare outcome key other = elim (Option-cases (outcome_data outcome)) [
    | inl e ↦ rw (e, open_cursor) refl
    | inr (d, e) ↦ elim (Bool-cases (is_some (s.cursors declare.name))) [
      | inl known ↦ rw (e, open_cursor) (rw known refl)
      | inr fresh ↦ rw (e, open_cursor) (rw fresh (insert_other declare.name key _ s.cursors other))
    ]
  ]

  execute_client_sql-cursors :
      (t : Translator) (s : SessionState db) (sql : Text)
      → (execute_client_sql t s sql).0.cursors ≡ s.cursors
  unfolding execute_client_sql
  execute_client_sql-cursors t s sql = elim (Result-cases (translate_client_sql t sql)) [
    | inl (translated, e) ↦ rw (e, execute_client_sql) refl
    | inr (x, e) ↦ rw (e, execute_client_sql) refl
  ]

  declare_in-Same :
      (r : Regexes) (t : Translator) (s : SessionState db) (declare : CursorDeclare) (key : Text)
      → text_eq key declare.name ≡ false
      → (declare_in r t s declare).0.cursors key ≡ s.cursors key
  unfolding declare_in
  declare_in-Same r t s declare key other = elim (Bool-cases (is_some (s.cursors declare.name))) [
    | inl known ↦ rw (known, declare_in) refl
    | inr fresh ↦
        let run = execute_client_sql t s declare.query in
        let same : run.0.cursors key ≡ s.cursors key =
          ap (λ m. m key) (execute_client_sql-cursors t s declare.query) in
        elim (Result-cases run.1) [
          | inl (outcome, e) ↦
              rw (fresh, declare_in)
                (rw e (open_cursor-Same run.0 declare outcome key other ∙ same))
          | inr (x, e) ↦ rw (fresh, declare_in) (rw e same)
        ]
  ]

  close_cursor-Same :
      (s : SessionState db) (name key : Text)
      → text_eq key name ≡ false
      → (close_cursor s (CursorClose.one name)).0.cursors key ≡ s.cursors key
  unfolding close_cursor
  close_cursor-Same s name key other = elim (Option-cases (s.cursors name)) [
    | inl e ↦ rw (e, close_cursor) refl
    | inr (c, e) ↦ rw (e, close_cursor) (remove_other name key s.cursors other)
  ]

  on_session-Same :
      (client : Client db) (f : SessionState db → Option (SessionState db × Responses k))
      (key : Text)
      → ((s : SessionState db) → Same key s (f s))
      → IsSameAfter key client.session (on_session client f)
  on_session-Same client f key same = elim (Option-cases client.session) [
    | inl e ↦ rw e refl
    | inr (s, e) ↦ elim (Option-cases (f s)) [
      | inl g ↦ rw e (rw (g, IsSameAfter, on_session) tt)
      | inr (answer, g) ↦ rw e (rw (g, IsSameAfter, on_session) (subst (Same key s) g (same s)))
    ]
  ]

-- DECLARE, FETCH, MOVE and CLOSE of one cursor, whatever their outcome, leave the cursor of every
-- other name as it was, position and rows, and make none appear.
pub execute_cursor_plan-IsSameAfter :
    {k : Crates} {db : Database k} (fuel : ℕ) (r : Regexes) (t : Translator) (client : Client db)
    (plan : CursorPlan) (key : Text)
    → is_about plan key ≡ false
    → IsSameAfter key client.session (execute_cursor_plan fuel r t client plan)
unfolding execute_cursor_plan declare_cursor fetch_cursor move_cursor
execute_cursor_plan-IsSameAfter fuel r t client (CursorPlan.declare declare) key other =
    elim (Bool-cases (is_cursor_unsafe_query (classify_statement r declare.query))) [
      | inl refused ↦ rw (refused, execute_cursor_plan, declare_cursor) refl
      | inr served ↦
          rw (served, execute_cursor_plan, declare_cursor)
            (on_session-Same client (λ s. some (declare_in r t s declare)) key
              (λ s. declare_in-Same r t s declare key other))
    ]
execute_cursor_plan-IsSameAfter fuel r t client (CursorPlan.fetch position) key other =
    on_session-Same client (λ s. fetch_cursor fuel s position) key
      (λ s. step_cursor-Same fuel s position true _ key other)
execute_cursor_plan-IsSameAfter fuel r t client (CursorPlan.move position) key other =
    on_session-Same client (λ s. move_cursor fuel s position) key
      (λ s. step_cursor-Same fuel s position false _ key other)
execute_cursor_plan-IsSameAfter fuel r t client (CursorPlan.close CursorClose.every) key other =
    absurd (cc)
execute_cursor_plan-IsSameAfter fuel r t client (CursorPlan.close (CursorClose.one name)) key
      other =
    on_session-Same client (λ s. some (close_cursor s (CursorClose.one name))) key
      (λ s. close_cursor-Same s name key other)
