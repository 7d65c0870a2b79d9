-- ===== src/Session/Extended/Answers.antt =====
-- The answers of the protocol made with the row encoder: what `Response::try_from` calls.
use exa_postgres_interface.Base.{Bool, List, map, Option, none, Result, ok, ◌≡◌, refl}
use exa_postgres_interface.Base.Text.{Text}
use exa_postgres_interface.Crates.{Crates}
use exa_postgres_interface.Cursor.{TextRow, ExasolColumn}
use exa_postgres_interface.Exasol.Json.{Json}
use exa_postgres_interface.Policy.Regexes.{Regexes}
use exa_postgres_interface.Session.{GatewayResponse}
use exa_postgres_interface.Session.Types.{
  FieldInfo, Field, text_field, typed_columns, map_exasol_columns, fields,
}
use exa_postgres_interface.Session.Rows.{
  Encoder, Columns, QueryResponse, text_response, query_response_arrow,
}
use exa_postgres_interface.Session.Extended.Portals.{Encoding, Response, try_from}

module _ {k : Crates} (j : Json k.Value) (r : Regexes) (fields_of : k.Schema → List Field)
    (c : Columns k) (e : Encoder) where
  unfoldable pub query_response : List Text → List TextRow → Result (QueryResponse e.DataRow)
  unfolding text_response
  query_response columns rows = ok (text_response e (map text_field columns) rows none)

  unfoldable pub query_response_typed :
      List (ExasolColumn k) → List TextRow → Option Text → Bool → Result (QueryResponse e.DataRow)
  unfolding text_response
  query_response_typed columns rows command_tag fold_labels =
      ok (text_response e (typed_columns j r fields_of columns fold_labels) rows command_tag)

  abbrev pub encoding : Encoding k
  encoding = record {
    QueryResponse = QueryResponse e.DataRow;
    query_response = query_response;
    query_response_arrow = λ schema batches command_tag fold_labels. ok (
        query_response_arrow c e (map_exasol_columns j fields_of schema fold_labels) batches
          command_tag);
    query_response_typed = query_response_typed;
    fields = fields j r fields_of;
  }

-- A response with rows is sent under these fields.
abbrev pub IsUnder :
    {DataRow : Type 0} → List FieldInfo → Result (Response (QueryResponse DataRow)) → Type 0
IsUnder described (ok (Response.query answer)) = answer.schema ≡ described
IsUnder described _ = Unit {0}

-- The fields that Describe tells of an answer are those under which Execute sends its rows.
pub fields-try_from :
    {k : Crates} (j : Json k.Value) (r : Regexes) (fields_of : k.Schema → List Field)
    (c : Columns k) (e : Encoder) (response : GatewayResponse k)
    → IsUnder (fields j r fields_of response) (try_from (encoding j r fields_of c e) response)
unfolding try_from query_response query_response_typed query_response_arrow text_response fields
fields-try_from j r fields_of c e GatewayResponse.empty = tt
fields-try_from j r fields_of c e (GatewayResponse.query columns rows) = refl
fields-try_from j r fields_of c e (GatewayResponse.arrow_query schema batches tag fold) = refl
fields-try_from j r fields_of c e (GatewayResponse.typed_query columns rows tag fold) = refl
fields-try_from j r fields_of c e (GatewayResponse.execution command rows) = tt
fields-try_from j r fields_of c e (GatewayResponse.transaction_start command) = tt
fields-try_from j r fields_of c e (GatewayResponse.transaction_end command) = tt
fields-try_from j r fields_of c e (GatewayResponse.error sqlstate message) = tt
