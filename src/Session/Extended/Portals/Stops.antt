-- ===== src/Session/Extended/Portals/Stops.antt =====
-- `execute_simple_query` stops at an error.
use exa_postgres_interface.Base.{
  any, true, false, List, [], ◌∷◌, ◌++◌, append_assoc, append-nil, Option, some, ok, err, PgError,
  ◌≡◌, refl, sym, ap, ◌∙◌,
}
use exa_postgres_interface.Base.Text.{Text}
use exa_postgres_interface.Crates.{Crates}
use exa_postgres_interface.Session.{Database, Client, Responses}
use exa_postgres_interface.Session.Extended.Portals.{
  Response, Encoding, is_error, execute_sql, execute_statements,
}

module _ {k : Crates} {db : Database k} (encoding : Encoding k)
    (execute_statement : Client db → Text → Option (Client db × Responses k)) where
  -- Statements that run one after the other, from one state of the client to another, each with
  -- responses of which none is an error.
  pub data Runs
      : Client db → List Text → List (Response encoding.QueryResponse) → Client db → Type 0 where
    rest : (client : Client db) → Runs client [] [] client
    step :
        (client client' after : Client db) (statement : Text) (statements : List Text)
        (more responses : List (Response encoding.QueryResponse))
        → execute_sql encoding execute_statement client statement ≡ some (client', ok more)
        → any is_error more ≡ false
        → Runs client' statements responses after
        → Runs client (statement ∷ statements) (more ++ responses) after

  -- A query whose statements run up to one that answers with an error has the responses up to that
  -- error, and nothing behind it is run. A statement that fails loses the responses before it.
  pub execute_statements-Runs :
      (client client' after : Client db) (statements : List Text)
      (responses acc : List (Response encoding.QueryResponse)) (statement : Text)
      (following : List Text)
      → Runs client statements responses client'
      → ((more : List (Response encoding.QueryResponse))
          → execute_sql encoding execute_statement client' statement ≡ some (after, ok more)
          → any is_error more ≡ true
          → execute_statements encoding execute_statement client
              (statements ++ statement ∷ following)
              acc
            ≡ some (after, ok (acc ++ responses ++ more)))
        × ((e : PgError)
            → execute_sql encoding execute_statement client' statement ≡ some (after, err e)
            → execute_statements encoding execute_statement client
                (statements ++ statement ∷ following)
                acc
              ≡ some (after, err e))
  unfolding execute_statements
  execute_statements-Runs _ _ after _ _ acc statement following (rest client) = (
    λ more ran bad.
        rw (ran, execute_statements)
          (rw bad (ap (λ t. some (after, ok (t ++ more))) (sym (append-nil acc)))),
    λ e ran. rw (ran, execute_statements) refl,
  )
  execute_statements-Runs _ _ after _ _ acc statement following
        (step client client' end first statements more responses ran good runs) =
      let (stops, fails) =
        execute_statements-Runs client' end after statements responses (acc ++ more) statement
          following runs in
      (
        λ last r b.
            rw (ran, execute_statements)
              (rw good (
                stops last r b
                ∙ ap (λ t. some (after, ok (t ++ last))) (append_assoc acc more responses))),
        λ e r. rw (ran, execute_statements) (rw good (fails e r)),
      )
