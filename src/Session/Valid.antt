-- ===== src/Session/Valid.antt =====
-- The cursors of a session stay valid.
use exa_postgres_interface.Policy.Regexes.{Regexes}
use exa_postgres_interface.Policy.Classify.{classify_statement, is_cursor_unsafe_query}
use exa_postgres_interface.Session.Statements.{
  open_schema_sql, set_search_path, show_search_path, execute_in, execute_plan,
}
use exa_postgres_interface.Base.{
  false, true, sym, ◌≡◌, refl, ℕ, ◌+◌, ◌<◌, ◌^◌, Bool, Bool-cases, inl, inr, Option, none, some,
  Option-cases, Result, ok, err, Result-cases, subst, arith,
}
use exa_postgres_interface.Base.Maps.{Map, insert, remove, retain}
use exa_postgres_interface.Base.Text.{Text, text_eq, is_some}
use exa_postgres_interface.Crates.{Crates}
use exa_postgres_interface.Policy.Plan.{
  CursorPlan, RowCountPolicy, StatementPlan, CursorClose, CursorDeclare, CursorPosition,
}
use exa_postgres_interface.Cursor.{CursorData, GatewayCursor, CursorStep, data_row_count}
use exa_postgres_interface.Cursor.Apply.{apply}
use exa_postgres_interface.Cursor.Movements.{IsValid}
use exa_postgres_interface.Cursor.View.{Counted}
use exa_postgres_interface.Cursor.Invariant.{apply-IsValid}
use exa_postgres_interface.Session.{
  Translator, ExasolOutcome, Database, SessionState, Client, Responses,
}
use exa_postgres_interface.Session.Cursors.{
  translate_client_sql, move_cursor, fetch_cursor, declare_cursor, close_cursor,
  execute_cursor_plan, on_session, clear_non_hold_cursors, execute_client_sql, declare_in,
  outcome_data, open_cursor, step_cursor,
}

module _ {k : Crates} where
  abbrev pub EachValid : Option (GatewayCursor k) → Type 0
  EachValid none = Unit
  EachValid (some c) = IsValid c

  abbrev pub AllValid : Map (GatewayCursor k) → Type 0
  AllValid m = (name : Text) → EachValid (m name)

  -- A result set whose slots an `isize` can count, with the rows that its batches announce.
  abbrev FitsData : Option (CursorData k) → Type 0
  FitsData none = Unit
  FitsData (some d) = (data_row_count d + 2 < 2 ^ 63) × Counted d

  abbrev FitsAnswer : Result (ExasolOutcome k) → Type 0
  FitsAnswer (err e) = Unit
  FitsAnswer (ok outcome) = FitsData (outcome_data outcome)

  abbrev pub Fits : Database k → Type 0
  Fits db = (w : db.World) (sql : Text) → FitsAnswer ((db.execute w sql).1)

  insert-AllValid :
      (name : Text) (c : GatewayCursor k) (m : Map (GatewayCursor k))
      → IsValid c
      → AllValid m
      → AllValid (insert name c m)
  unfolding insert
  insert-AllValid name c m v h key = elim (Bool-cases (text_eq key name)) [
    | inl same ↦ rw (same, insert) v
    | inr other ↦ rw (other, insert) (h key)
  ]

  remove-AllValid :
      (name : Text) (m : Map (GatewayCursor k)) → AllValid m → AllValid (remove name m)
  unfolding remove
  remove-AllValid name m h key = elim (Bool-cases (text_eq key name)) [
    | inl same ↦ rw (same, remove) tt
    | inr other ↦ rw (other, remove) (h key)
  ]

  retain-AllValid :
      (p : GatewayCursor k → Bool) (m : Map (GatewayCursor k)) → AllValid m → AllValid (retain p m)
  unfolding retain
  retain-AllValid p m h key = elim (Option-cases (m key)) [
    | inl e ↦ rw (e, retain) tt
    | inr (c, e) ↦ elim (Bool-cases (p c)) [
      | inl kept ↦ rw (e, retain) (rw kept (subst EachValid e (h key)))
      | inr dropped ↦ rw (e, retain) (rw dropped tt)
    ]
  ]

  module _ {db : Database k} where
    abbrev pub IsValidSession : Option (SessionState db) → Type 0
    IsValidSession none = Unit
    IsValidSession (some s) = AllValid s.cursors

    -- The client that a handler leaves, if it returns.
    abbrev pub IsValidAfter : Option (Client db × Responses k) → Type 0
    IsValidAfter none = Unit
    IsValidAfter (some (client, _)) = IsValidSession client.session

    abbrev KeepsCursors : Option (SessionState db × Responses k) → Type 0
    KeepsCursors none = Unit
    KeepsCursors (some (s, _)) = AllValid s.cursors

    step_cursor-Valid :
        (fuel : ℕ) (s : SessionState db) (position : CursorPosition) (rr : Bool)
        (response : GatewayCursor k → CursorStep k → Responses k)
        → AllValid s.cursors
        → KeepsCursors (step_cursor fuel s position rr response)
    unfolding step_cursor
    step_cursor-Valid fuel s position rr response h =
        elim (Option-cases (s.cursors position.name)) [
          | inl e ↦ rw (e, step_cursor) h
          | inr (c, e) ↦ elim (Option-cases (apply fuel c position.direction rr)) [
            | inl stuck ↦ rw (e, step_cursor) (rw stuck tt)
            | inr (answer, g) ↦ elim (Result-cases answer) [
              | inl (r, ga) ↦
                  rw (e, step_cursor)
                    (rw g (
                      rw ga (
                        insert-AllValid position.name r.0 s.cursors
                          ((apply-IsValid c position.direction rr fuel r
                            (subst EachValid e (h position.name)) (rw (g, ga))).0)
                          h)))
              | inr (x, ga) ↦ rw (e, step_cursor) (rw g (rw ga h))
            ]
          ]
        ]

    open_cursor-Valid :
        (s : SessionState db) (declare : CursorDeclare) (outcome : ExasolOutcome k)
        → FitsData (outcome_data outcome)
        → AllValid s.cursors
        → AllValid (open_cursor s declare outcome).0.cursors
    unfolding open_cursor
    open_cursor-Valid s declare outcome f h = elim (Option-cases (outcome_data outcome)) [
      | inl e ↦ rw (e, open_cursor) h
      | inr (d, e) ↦ elim (Bool-cases (is_some (s.cursors declare.name))) [
        | inl known ↦ rw (e, open_cursor) (rw known h)
        | inr fresh ↦
            let (small, counted) = subst FitsData e f in
            rw (e, open_cursor)
              (rw fresh (
                insert-AllValid declare.name _ s.cursors
                  (record {
                    lower = omega arith;
                    upper = omega arith;
                    fits = small;
                    counted = counted;
                  })
                  h))
      ]
    ]

    execute_client_sql_lem :
        (t : Translator) (s : SessionState db) (sql : Text)
        → Fits db
        → ((execute_client_sql t s sql).0.cursors ≡ s.cursors)
          × FitsAnswer (execute_client_sql t s sql).1
    unfolding execute_client_sql
    execute_client_sql_lem t s sql fits = elim (Result-cases (translate_client_sql t sql)) [
      | inl (translated, e) ↦ rw (e, execute_client_sql) (refl, fits s.exasol translated)
      | inr (x, e) ↦ rw (e, execute_client_sql) (refl, tt)
    ]

    declare_in-Valid :
        (r : Regexes) (t : Translator) (s : SessionState db) (declare : CursorDeclare)
        → Fits db
        → AllValid s.cursors
        → AllValid (declare_in r t s declare).0.cursors
    unfolding declare_in
    declare_in-Valid r t s declare fits h = elim (Bool-cases (is_some (s.cursors declare.name))) [
      | inl known ↦ rw (known, declare_in) h
      | inr fresh ↦
          let run = execute_client_sql t s declare.query in
          let (same, fit) = execute_client_sql_lem t s declare.query fits in
          let h' : AllValid run.0.cursors = subst AllValid (sym same) h in
          elim (Result-cases run.1) [
            | inl (outcome, e) ↦
                rw (fresh, declare_in)
                  (rw e (open_cursor-Valid run.0 declare outcome (subst FitsAnswer e fit) h'))
            | inr (x, e) ↦ rw (fresh, declare_in) (rw e h')
          ]
    ]

    close_cursor-Valid :
        (s : SessionState db) (closing : CursorClose)
        → AllValid s.cursors
        → AllValid (close_cursor s closing).0.cursors
    unfolding close_cursor
    close_cursor-Valid s CursorClose.every h = λ name. tt
    close_cursor-Valid s (CursorClose.one name) h = elim (Option-cases (s.cursors name)) [
      | inl e ↦ rw (e, close_cursor) h
      | inr (c, e) ↦ rw (e, close_cursor) (remove-AllValid name s.cursors h)
    ]

    on_session-Valid :
        (client : Client db) (f : SessionState db → Option (SessionState db × Responses k))
        → IsValidSession client.session
        → ((s : SessionState db) → AllValid s.cursors → KeepsCursors (f s))
        → IsValidAfter (on_session client f)
    on_session-Valid client f h keeps = elim (Option-cases client.session) [
      | inl e ↦ rw e tt
      | inr (s, e) ↦
          let kept = keeps s (subst IsValidSession e h) in
          elim (Option-cases (f s)) [
            | inl g ↦ rw e (rw (g, IsValidAfter, on_session) tt)
            | inr (answer, g) ↦ rw e (rw (g, IsValidAfter, on_session) (subst KeepsCursors g kept))
          ]
    ]

    execute_cursor_plan-Valid :
        (fuel : ℕ) (r : Regexes) (t : Translator) (client : Client db) (plan : CursorPlan)
        → Fits db
        → IsValidSession client.session
        → IsValidAfter (execute_cursor_plan fuel r t client plan)
    unfolding execute_cursor_plan declare_cursor fetch_cursor move_cursor
    execute_cursor_plan-Valid fuel r t client (CursorPlan.declare declare) fits h =
        elim (Bool-cases (is_cursor_unsafe_query (classify_statement r declare.query))) [
          | inl refused ↦ rw (refused, execute_cursor_plan, declare_cursor) h
          | inr served ↦
              rw (served, execute_cursor_plan, declare_cursor)
                (on_session-Valid client (λ s. some (declare_in r t s declare)) h
                  (λ s v. declare_in-Valid r t s declare fits v))
        ]
    execute_cursor_plan-Valid fuel r t client (CursorPlan.fetch position) fits h =
        on_session-Valid client (λ s. fetch_cursor fuel s position) h
          (λ s v. step_cursor-Valid fuel s position true _ v)
    execute_cursor_plan-Valid fuel r t client (CursorPlan.move position) fits h =
        on_session-Valid client (λ s. move_cursor fuel s position) h
          (λ s v. step_cursor-Valid fuel s position false _ v)
    execute_cursor_plan-Valid fuel r t client (CursorPlan.close closing) fits h =
        on_session-Valid client (λ s. some (close_cursor s closing)) h
          (λ s v. close_cursor-Valid s closing v)

    clear_non_hold_cursors-Valid :
        (client : Client db)
        → IsValidSession client.session
        → IsValidSession (clear_non_hold_cursors client).session
    unfolding clear_non_hold_cursors
    clear_non_hold_cursors-Valid client h = elim (Option-cases client.session) [
      | inl e ↦ rw (e, clear_non_hold_cursors) h
      | inr (s, e) ↦
          rw (e, clear_non_hold_cursors)
            (retain-AllValid (λ c. c.hold) s.cursors (subst IsValidSession e h))
    ]

    set_search_path_lem :
        (s : SessionState db) (schema : Text) → (set_search_path s schema).0.cursors ≡ s.cursors
    unfolding set_search_path open_schema_sql
    set_search_path_lem s schema =
        elim (Result-cases (db.execute s.exasol (open_schema_sql schema)).1) [
          | inl (o, e) ↦ rw (e, set_search_path)
          | inr (x, e) ↦ rw (e, set_search_path)
        ]

    execute_in_lem :
        (t : Translator) (s : SessionState db) (sql command : Text) (policy : RowCountPolicy)
        → (execute_in t s sql command policy).0.cursors ≡ s.cursors
    unfolding execute_in
    execute_in_lem t s sql command policy = elim (Result-cases (translate_client_sql t sql)) [
      | inl (translated, e) ↦ rw (e, execute_in)
      | inr (x, e) ↦ rw (e, execute_in)
    ]

-- Every statement that the gateway serves, whatever its plan and its outcome, leaves a session whose
-- cursors are all valid, if they were and no result set of the database has 2^63 - 2 rows or more or
-- a batch of 2^32.
pub execute_plan-IsValidAfter :
    {k : Crates} {db : Database k} (fuel : ℕ) (r : Regexes) (t : Translator) (client : Client db)
    (sql : Text) (plan : StatementPlan)
    → Fits db
    → IsValidSession client.session
    → IsValidAfter (execute_plan fuel r t client sql plan)
unfolding execute_plan show_search_path
execute_plan-IsValidAfter fuel r t client sql (StatementPlan.set_search_path schema) fits h =
    on_session-Valid client (λ s. some (set_search_path s schema)) h
      (λ s v. subst AllValid (sym (set_search_path_lem s schema)) v)
execute_plan-IsValidAfter fuel r t client sql StatementPlan.show_search_path fits h =
    on_session-Valid client (λ s. some (show_search_path s)) h (λ s v. v)
execute_plan-IsValidAfter fuel r t client sql (StatementPlan.client_transaction_end command) fits
      h =
    clear_non_hold_cursors-Valid client h
execute_plan-IsValidAfter fuel r t client sql (StatementPlan.cursor plan) fits h =
    execute_cursor_plan-Valid fuel r t client plan fits h
execute_plan-IsValidAfter fuel r t client sql (StatementPlan.execute command policy) fits h =
    on_session-Valid client (λ s. some (execute_in t s sql command policy)) h
      (λ s v. subst AllValid (sym (execute_in_lem t s sql command policy)) v)
execute_plan-IsValidAfter fuel r t client sql StatementPlan.empty fits h = h
execute_plan-IsValidAfter fuel r t client sql StatementPlan.client_set fits h = h
execute_plan-IsValidAfter fuel r t client sql StatementPlan.client_transaction_start fits h = h
execute_plan-IsValidAfter fuel r t client sql (StatementPlan.client_show _ _) fits h = h
execute_plan-IsValidAfter fuel r t client sql (StatementPlan.client_select _ _) fits h = h
execute_plan-IsValidAfter fuel r t client sql (StatementPlan.backend_pid _) fits h = h
execute_plan-IsValidAfter fuel r t client sql (StatementPlan.reject _ _) fits h = h
