-- ===== src/Session/Extended/Portals/Execute.antt =====
-- `on_execute`: the Execute message of the extended protocol.
use exa_postgres_interface.Base.{
  Bool, true, false, not, ◌||◌, Option, none, some, if◌then◌else◌, Result, ok, err, PgError,
}
use exa_postgres_interface.Base.Text.{Text, codes, text_eq}
use exa_postgres_interface.Crates.{Crates}
use exa_postgres_interface.Cursor.{pg_error}
use exa_postgres_interface.Session.{Database, Client, Responses}
use exa_postgres_interface.Session.Extended.{Decoding, Portal}
use exa_postgres_interface.Session.Extended.Portals.{Tag, Response, Encoding, execute_response}

-- What the crate pgwire does for a connection: its state and its store of portals, and the sending of
-- an answer, which may fail. `set_in_progress` and `set_ready` are `set_state`; the last three are
-- `set_transaction_status` of the status that follows the present one; `default_name` is `DEFAULT_NAME`.
pub data Outgoing (QueryResponse : Type 0) : Type 0 where
  empty_query_response : Outgoing QueryResponse
  query_response : QueryResponse → (send_describe : Bool) → Outgoing QueryResponse
  execution_response : Tag → Outgoing QueryResponse
  error_response : PgError → Outgoing QueryResponse

pub record Wire (QueryResponse : Type 0) : Type 1 where
  pub World : Type 0
  pub default_name : Text
  pub is_ready : World → Bool
  pub set_in_progress : World → World
  pub set_ready : World → World
  pub get_portal : World → Text → Option Portal
  pub rm_portal : World → Text → World
  pub send : World → Outgoing QueryResponse → World × Result (Unit {0})
  pub to_in_transaction : World → World
  pub to_idle : World → World
  pub to_error : World → World

-- `PgWireError`, as far as the handler makes one.
pub data Executed : Type 0 where
  done not_ready_for_query : Executed
  portal_not_found : Text → Executed
  failed : PgError → Executed

abbrev pub is_query : {Q : Type 0} → Response Q → Bool
is_query (Response.query _) = true
is_query _ = false

module _ {Q : Type 0} (wire : Wire Q) where
  abbrev sent_then :
      wire.World → Outgoing Q → (wire.World → wire.World) → wire.World × Result (Unit {0})
  sent_then w message f =
      let (w', answer) = wire.send w message in
      elim answer [ err e ↦ (w', err e) | ok _ ↦ (f w', ok tt) ]

  -- The `match` on the response.
  unfoldable pub send_response : wire.World → Response Q → Bool → wire.World × Result (Unit {0})
  send_response w Response.empty_query send_describe = wire.send w Outgoing.empty_query_response
  send_response w (Response.query results) send_describe =
      wire.send w (Outgoing.query_response results send_describe)
  send_response w (Response.execution tag) send_describe =
      wire.send w (Outgoing.execution_response tag)
  send_response w (Response.transaction_start tag) send_describe =
      sent_then w (Outgoing.execution_response tag) wire.to_in_transaction
  send_response w (Response.transaction_end tag) send_describe =
      sent_then w (Outgoing.execution_response tag) wire.to_idle
  send_response w (Response.error e) send_describe =
      sent_then w (Outgoing.error_response e) wire.to_error
  send_response w Response.copy send_describe =
      (w, err (pg_error (codes "0A000") (codes "COPY protocol is not implemented")))

module _ {k : Crates} {db : Database k} (encoding : Encoding k) (d : Decoding)
    (execute_statement : Client db → Text → Option (Client db × Responses k))
    (wire : Wire encoding.QueryResponse) where
  -- The message names a portal, or means the default one.
  unfoldable pub on_execute :
      Client db → wire.World → Option Text → Option (Client db × wire.World × Executed)
  unfolding execute_response send_response
  on_execute client w message_name =
      let portal_name : Text = elim message_name [ none ↦ wire.default_name | some name ↦ name ] in
      elim (not (wire.is_ready w)) [
        | true ↦ some (client, w, Executed.not_ready_for_query)
        | false ↦ elim (wire.get_portal w portal_name) [
          | none ↦ some (client, w, Executed.portal_not_found portal_name)
          | some portal ↦
              let w' = wire.set_in_progress w in
              elim (execute_response encoding d execute_statement client portal portal_name) [
                | none ↦ none
                | some (client', was_described, answer) ↦ elim answer [
                  | err e ↦ some (client', w', Executed.failed e)
                  | ok response ↦
                      let send_describe = not (is_query response) || not was_described in
                      let (w'', sent) = send_response wire w' response send_describe in
                      elim sent [
                        | err e ↦ some (client', w'', Executed.failed e)
                        | ok _ ↦
                            let ready = wire.set_ready w'' in
                            some (
                              client',
                              (if text_eq portal_name wire.default_name
                                  then wire.rm_portal ready portal_name
                                  else ready),
                              Executed.done,
                            )
                      ]
                ]
              ]
        ]
      ]
