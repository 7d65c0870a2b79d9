-- ===== src/Session/Extended/Portals.antt =====
-- Simple queries, and the portals of a client: Describe and Execute, with the result that Describe leaves for Execute.
pub mod Once
pub mod Execute
pub mod Ready
pub mod Stops
use exa_postgres_interface.Base.{
  ℕ, zero, suc, ◌==◌, Bool, true, false, not, ◌||◌, any, map, List, [], ◌∷◌, ◌++◌, Option, none,
  some, if◌then◌else◌, Result, ok, err, PgError,
}
use exa_postgres_interface.Base.Maps.{Map, insert, remove}
use exa_postgres_interface.Base.Text.{Text, codes, text_eq, is_some}
use exa_postgres_interface.Crates.{Crates}
use exa_postgres_interface.Cursor.{TextRow, ExasolColumn}
use exa_postgres_interface.Session.{
  GatewayResponse, Database, SessionState, Client, Responses, not_connected,
}
use exa_postgres_interface.Session.Simple.{split_simple_query}
use exa_postgres_interface.Session.Types.{FieldInfo}
use exa_postgres_interface.Session.Extended.{Decoding, Portal}
use exa_postgres_interface.Session.Extended.Parameters.{render_portal_sql}

-- `Tag`: the command, its object identifier and its row count.
pub record Tag : Type 0 where
  pub command : Text
  pub oid : Option ℕ
  pub rows : Option ℕ

-- `Response`, with `QueryResponse` as a parameter.
pub data Response (QueryResponse : Type 0) : Type 0 where
  empty_query : Response QueryResponse
  query : QueryResponse → Response QueryResponse
  execution transaction_start transaction_end : Tag → Response QueryResponse
  error : PgError → Response QueryResponse
  copy : Response QueryResponse

-- The answers with rows, which src/pg_server.rs makes with the encoder of pgwire (Session/Rows), and
-- the fields of an answer.
pub record Encoding (k : Crates) : Type 1 where
  pub QueryResponse : Type 0
  pub query_response : List Text → List TextRow → Result QueryResponse
  pub query_response_arrow :
      k.Schema → List k.RecordBatch → Option Text → Bool → Result QueryResponse
  pub query_response_typed :
      List (ExasolColumn k) → List TextRow → Option Text → Bool → Result QueryResponse
  pub fields : GatewayResponse k → List FieldInfo

abbrev plain_tag : Text → Tag
plain_tag command = record { command = command; oid = none; rows = none }

unfoldable pub execution_tag : Text → Option ℕ → Tag
execution_tag command none = plain_tag command
execution_tag command (some rows) = elim (text_eq command (codes "INSERT")) [
  | true ↦ record { command = command; oid = some 0; rows = some rows }
  | false ↦ record { command = command; oid = none; rows = some rows }
]

abbrev map_query : {Q : Type 0} → Result Q → Result (Response Q)
map_query (ok q) = ok (Response.query q)
map_query (err e) = err e

module _ {k : Crates} (encoding : Encoding k) where
  -- `Response::try_from`.
  unfoldable pub try_from : GatewayResponse k → Result (Response encoding.QueryResponse)
  unfolding execution_tag
  try_from GatewayResponse.empty = ok Response.empty_query
  try_from (GatewayResponse.query columns rows) = map_query (encoding.query_response columns rows)
  try_from (GatewayResponse.arrow_query schema batches tag fold) =
      map_query (encoding.query_response_arrow schema batches tag fold)
  try_from (GatewayResponse.typed_query columns rows tag fold) =
      map_query (encoding.query_response_typed columns rows tag fold)
  try_from (GatewayResponse.execution command rows) =
      ok (Response.execution (execution_tag command rows))
  try_from (GatewayResponse.transaction_start command) =
      ok (Response.transaction_start (plain_tag command))
  try_from (GatewayResponse.transaction_end command) =
      ok (Response.transaction_end (plain_tag command))
  try_from (GatewayResponse.error sqlstate message) =
      ok (Response.error (record { sqlstate = sqlstate; message = message }))

-- `responses.pop().unwrap_or(GatewayResponse::Empty)`
abbrev pub pop_or_empty : {k : Crates} → List (GatewayResponse k) → GatewayResponse k
pop_or_empty [] = GatewayResponse.empty
pop_or_empty (response ∷ []) = response
pop_or_empty (_ ∷ response ∷ rest) = pop_or_empty (response ∷ rest)

module _ {k : Crates} {db : Database k} where
  unfoldable pub cache_extended_result :
      Client db → Text → GatewayResponse k → Client db × Result (Unit {0})
  unfolding insert
  cache_extended_result client portal_name response = elim client.session [
    | none ↦ (client, err not_connected)
    | some s ↦ (
      record client {
        session =
            some (record s { extended_results = insert portal_name response s.extended_results });
      },
      ok tt,
    )
  ]

  unfoldable pub take_cached_extended_result :
      Client db → Text → Client db × Option (GatewayResponse k)
  unfolding remove
  take_cached_extended_result client portal_name = elim client.session [
    | none ↦ (client, none)
    | some s ↦ (
      record client {
        session = some (record s { extended_results = remove portal_name s.extended_results });
      },
      s.extended_results portal_name,
    )
  ]

  -- The handlers over `execute_statement`.
  module _ (encoding : Encoding k) (d : Decoding)
      (execute_statement : Client db → Text → Option (Client db × Responses k)) where
    unfoldable pub do_describe_portal :
        Client db → Portal → Option (Client db × Result (List FieldInfo))
    unfolding render_portal_sql cache_extended_result
    do_describe_portal client target = elim (render_portal_sql d target) [
      | err e ↦ some (client, err e)
      | ok sql ↦ elim (execute_statement client sql) [
        | none ↦ none
        | some (client', answer) ↦ elim answer [
          | err e ↦ some (client', err e)
          | ok responses ↦
              let response = pop_or_empty responses in
              let (client'', cached) = cache_extended_result client' target.name response in
              some (client'', elim cached [ err e ↦ err e | ok _ ↦ ok (encoding.fields response) ])
        ]
      ]
    ]

    unfoldable pub do_query :
        Client db → Portal → Option (Client db × Result (Response encoding.QueryResponse))
    unfolding render_portal_sql try_from
    do_query client portal = elim (render_portal_sql d portal) [
      | err e ↦ some (client, ok (Response.error e))
      | ok sql ↦ elim (execute_statement client sql) [
        | none ↦ none
        | some (client', answer) ↦ elim answer [
          | err e ↦ some (client', err e)
          | ok responses ↦ some (client', try_from encoding (pop_or_empty responses))
        ]
      ]
    ]

    -- The response of `on_execute`, and whether it was described: that of Describe, or a new one.
    unfoldable pub execute_response :
        Client db
        → Portal
        → Text
        → Option (Client db × Bool × Result (Response encoding.QueryResponse))
    unfolding take_cached_extended_result do_query try_from
    execute_response client portal portal_name =
        let (client', cached) = take_cached_extended_result client portal_name in
        elim cached [
          | some response ↦ some (client', true, try_from encoding response)
          | none ↦ elim (do_query client' portal) [
            | none ↦ none
            | some (client'', answer) ↦ some (client'', false, answer)
          ]
        ]

abbrev collect : {A : Type 0} → List (Result A) → Result (List A)
collect [] = ok []
collect (err e ∷ rest) = err e
collect (ok a ∷ rest) = elim (collect rest) [ err e ↦ err e | ok more ↦ ok (a ∷ more) ]

abbrev pub is_error : {Q : Type 0} → Response Q → Bool
is_error (Response.error _) = true
is_error _ = false

module _ {k : Crates} {db : Database k} (encoding : Encoding k)
    (execute_statement : Client db → Text → Option (Client db × Responses k)) where
  unfoldable pub execute_sql :
      Client db → Text → Option (Client db × Result (List (Response encoding.QueryResponse)))
  unfolding try_from
  execute_sql client sql = elim (execute_statement client sql) [
    | none ↦ none
    | some (client', answer) ↦ some (
      client',
      elim answer [ err e ↦ err e | ok responses ↦ collect (map (try_from encoding) responses) ],
    )
  ]

  -- The loop of `execute_simple_query`: it stops behind a statement that answers with an error, and
  -- a failure drops the responses of the statements before it.
  unfoldable pub execute_statements :
      Client db
      → List Text
      → List (Response encoding.QueryResponse)
      → Option (Client db × Result (List (Response encoding.QueryResponse)))
  unfolding execute_sql
  execute_statements client [] responses = some (client, ok responses)
  execute_statements client (statement ∷ rest) responses = elim (execute_sql client statement) [
    | none ↦ none
    | some (client', answer) ↦ elim answer [
      | err e ↦ some (client', err e)
      | ok more ↦ elim (any is_error more) [
        | true ↦ some (client', ok (responses ++ more))
        | false ↦ execute_statements client' rest (responses ++ more)
      ]
    ]
  ]

  unfoldable pub execute_simple_query :
      Client db → Text → Option (Client db × Result (List (Response encoding.QueryResponse)))
  unfolding execute_statements split_simple_query
  execute_simple_query client sql = elim (split_simple_query sql) [
    | [] ↦ some (client, ok (Response.empty_query ∷ []))
    | statement ∷ rest ↦ execute_statements client (statement ∷ rest) []
  ]
