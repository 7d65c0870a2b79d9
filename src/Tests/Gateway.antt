-- ===== src/Tests/Gateway.antt =====
-- A connection with one portal, and instances of the theorems on catalog queries and on the protocol.
use exa_postgres_interface.Base.{
  ◌↔◌, zero, ◌++◌, ◌==◌, ◌<◌, ◌≤◌, Bool-cases, inl, inr, ℕ, suc, length, if◌then◌else◌, Bool, true,
  false, any, List, [], ◌∷◌, Option, none, some, ok, err, PgError, ◌≡◌, refl, arith,
}
use exa_postgres_interface.Base.Text.{text_eq, Text, codes, replace, to_decimal}
use exa_postgres_interface.Cursor.{TextRow}
use exa_postgres_interface.Session.{Client, Responses, GatewayResponse}
use exa_postgres_interface.Session.Simple.{sql_string_literal}
use exa_postgres_interface.Session.Types.{Field, FieldInfo, text_field}
use exa_postgres_interface.Session.Valid.{IsValidAfter}
use exa_postgres_interface.Session.Catalog.{execute_statement}
use exa_postgres_interface.Session.Catalog.Queries.{
  jdbc_tables_sql, jdbc_columns_sql, pg_tables_sql, table_filter_sql, info_schema_table_names_sql,
  info_schema_column_names_sql,
}
use exa_postgres_interface.Session.Catalog.Single.{IsSingle, metadata_queries-IsSingle}
use exa_postgres_interface.Session.Catalog.Valid.{execute_statement-IsValidAfter}
use exa_postgres_interface.Session.Extended.{Decoding, Portal}
use exa_postgres_interface.Session.Extended.Parameters.{
  render_from, render_portal_parameter, render_portal_sql,
}
use exa_postgres_interface.Session.Extended.Portals.{
  Encoding, Response, is_error, execute_sql, execute_statements, do_describe_portal,
}
use exa_postgres_interface.Session.Extended.Portals.Execute.{Wire, on_execute}
use exa_postgres_interface.Session.Extended.Portals.Once.{
  IsReplayed, execute_response-do_describe_portal,
}
use exa_postgres_interface.Session.Extended.Portals.Ready.{
  WireLaws, IsEnded, portal_of, on_execute-IsEnded,
}
use exa_postgres_interface.Session.Extended.Portals.Stops.{Runs, execute_statements-Runs}
use exa_postgres_interface.Session.Extended.Parameters.Filling.{fill, render_portal_sql-fill}
use exa_postgres_interface.Session.Extended.Parameters.Replacing.{IsPlain}
use exa_postgres_interface.Batches.{total_rows}
use exa_postgres_interface.Exasol.Endpoint.{Checked}
use exa_postgres_interface.Exasol.Json.{Json, Kind}
use exa_postgres_interface.Session.Rows.{Encoder, Columns, query_response_arrow, text_response}
use exa_postgres_interface.Session.Rows.Widths.{EncoderLaws, IsWide, text_response-IsWide}
use exa_postgres_interface.Session.Rows.Encoded.{query_response_arrow-total_rows}
use exa_postgres_interface.Base.Text.{replace_char}
use exa_postgres_interface.Translator.Detection.{strip_sql_comments_for_detection, contains_word}
use exa_postgres_interface.Translator.Detection.Pieces.{
  Piece, print, print_stripped, strip_sql_comments_for_detection-print,
}
use exa_postgres_interface.Translator.Detection.Words.{IsWordIn, contains_word-IsWordIn}
use exa_postgres_interface.Translator.Keys.{
  primary_key_query, foreign_key_query, create_table_script_query,
}
use exa_postgres_interface.Translator.Keys.Single.{key_queries-IsSingle}
use exa_postgres_interface.Tests.{
  lists, counting, counting-Fits, client, client-IsValid, no_regexes, identity,
}

abbrev no_rows : List (List ℕ) → List TextRow
no_rows batches = []

abbrev run : Client counting → Text → Option (Client counting × Responses lists)
run c sql = execute_statement no_rows 2 no_regexes identity c sql

execute_statement-IsValidAfter_example :
    IsValidAfter (execute_statement no_rows 2 no_regexes identity client (codes "CLOSE c"))
execute_statement-IsValidAfter_example =
    execute_statement-IsValidAfter no_rows 2 no_regexes identity client (codes "CLOSE c")
      counting-Fits client-IsValid

metadata_queries-IsSingle_example :
    IsSingle (jdbc_tables_sql (codes "a';") (codes "b"))
    × IsSingle (jdbc_columns_sql (codes "a';") (codes "b") (codes "c"))
    × IsSingle (pg_tables_sql (codes "a';") (table_filter_sql (some (codes "t"))))
    × IsSingle (info_schema_table_names_sql (codes "a';"))
    × IsSingle (info_schema_column_names_sql (codes "a';") (codes "b"))
metadata_queries-IsSingle_example =
    metadata_queries-IsSingle (codes "a';") (codes "b") (codes "c") (some (codes "t"))

abbrev plain : Decoding
plain = record {
  captures_iter = λ pattern text. [];
  is_match = λ pattern text. none;
  escape = λ t. t;
  from_utf8 = λ bytes. some bytes;
}

abbrev portal : Portal
portal = record {
  name = codes "p";
  statement = record { statement = codes "SELECT $1, $2"; parameter_types = [] };
  parameters = some (codes "a") ∷ some (codes "$1") ∷ [];
  parameter_len = 2;
  is_binary = λ idx. false;
}

-- The value of the second parameter holds a placeholder, which is replaced inside its literal.
placeholder_in_value : render_portal_sql plain portal ≡ ok (codes "SELECT 'a', ''a''")
unfolding render_portal_sql render_from render_portal_parameter replace to_decimal
    sql_string_literal
placeholder_in_value = refl

abbrev encoding : Encoding lists
encoding = record {
  QueryResponse = ℕ;
  query_response = λ columns rows. ok 0;
  query_response_arrow = λ schema batches tag fold. ok 0;
  query_response_typed = λ columns rows tag fold. ok 0;
  fields = λ response. [];
}

execute_response-do_describe_portal_example :
    IsReplayed encoding plain run client portal
      (do_describe_portal encoding plain run client portal)
execute_response-do_describe_portal_example =
    execute_response-do_describe_portal encoding plain run client portal

-- Whether the connection is ready, and whether the portal is there.
abbrev wire : Wire ℕ
wire = record {
  World = Bool × Bool;
  default_name = [];
  is_ready = λ w. w.0;
  set_in_progress = λ w. (false, w.1);
  set_ready = λ w. (true, w.1);
  get_portal = λ w name. if w.1 then some portal else none;
  rm_portal = λ w name. (w.0, false);
  send = λ w message. (w, ok tt);
  to_in_transaction = λ w. w;
  to_idle = λ w. w;
  to_error = λ w. w;
}

wire_laws : WireLaws wire
wire_laws = record { ready = λ w. refl; still_ready = λ w name. refl; removed = λ w name. refl }

on_execute-IsEnded_example :
    IsEnded wire
      (true, true)
      (portal_of wire (some (codes "p")))
      (on_execute encoding plain run wire client (true, true) (some (codes "p")))
on_execute-IsEnded_example =
    on_execute-IsEnded encoding plain run wire wire_laws client (true, true) (some (codes "p"))

-- Every statement but `b` is answered with nothing, and `b` with an error.
abbrev answers : Client counting → Text → Option (Client counting × Responses lists)
answers c sql =
    if text_eq sql (codes "b")
    then some (c, ok (GatewayResponse.error (codes "42601") (codes "b") ∷ []))
    else some (c, ok (GatewayResponse.empty ∷ []))

runs_a : Runs encoding answers client (codes "a" ∷ []) (Response.empty_query ∷ []) client
unfolding execute_sql
runs_a =
    Runs.step client client client (codes "a") [] (Response.empty_query ∷ []) [] refl refl
      (Runs.rest client)

execute_statements-Runs_example :
    ((more : List (Response ℕ))
      → execute_sql encoding answers client (codes "b") ≡ some (client, ok more)
      → any is_error more ≡ true
      → execute_statements encoding answers client (codes "a" ∷ codes "b" ∷ codes "c" ∷ []) []
        ≡ some (client, ok (Response.empty_query ∷ more)))
    × ((e : PgError)
        → execute_sql encoding answers client (codes "b") ≡ some (client, err e)
        → execute_statements encoding answers client (codes "a" ∷ codes "b" ∷ codes "c" ∷ []) []
          ≡ some (client, err e))
execute_statements-Runs_example =
    execute_statements-Runs encoding answers client client client (codes "a" ∷ [])
      (Response.empty_query ∷ []) [] (codes "b") (codes "c" ∷ []) runs_a

-- An encoder that counts the values of a row, and batches of one column.
abbrev counter : Encoder
counter = record {
  State = ℕ;
  DataRow = ℕ;
  new = λ schema. 0;
  encode_field = λ s value. (suc s, ok tt);
  take_row = λ s. (0, s);
}

abbrev one_column : Columns lists
one_column = record {
  Column = List ℕ;
  columns = λ batch. batch ∷ [];
  is_null = λ column i. false;
  formatter = λ column. Checked.valid (λ i. Checked.valid (codes "x"));
}

abbrev two_batches : List (List ℕ)
two_batches = (10 ∷ 20 ∷ []) ∷ (30 ∷ []) ∷ []

query_response_arrow-total_rows_example :
    length ((query_response_arrow one_column counter [] two_batches none).rows)
    ≡ total_rows lists two_batches
query_response_arrow-total_rows_example =
    query_response_arrow-total_rows one_column counter [] two_batches none
      ((_, refl), ((_, refl), tt))

abbrev nulls : Json ℕ
nulls = record {
  kind = λ v. Kind.null;
  render = λ v. codes "null";
  get = λ v key. none;
  pointer = λ v path. none;
  as_u64 = λ v. none;
  as_i64 = λ v. none;
  null_value = 0;
  parse = λ t. none;
  execute_request = λ sql. sql;
  fetch_request = λ handle position size. [];
}

abbrev no_fields : ℕ → List Field
no_fields schema = []

abbrev two_values : Portal
two_values = record portal { parameters = some (codes "a") ∷ some (codes "b") ∷ [] }

abbrev rendered : ℕ → Text
rendered n = if n == 1 then codes "'a'" else codes "'b'"

rendered-IsPlain : (n : ℕ) → 0 < n → n ≤ 2 → IsPlain (rendered n)
rendered-IsPlain n low high = elim (Bool-cases (n == 1)) [
  | inl first ↦ rw first (refl, (refl, (refl, tt)))
  | inr other ↦ rw other (refl, (refl, (refl, tt)))
]

rendered_lem : (i : ℕ) → i < 2 → render_portal_parameter plain two_values i ≡ ok (rendered (suc i))
unfolding render_portal_parameter sql_string_literal
rendered_lem zero h = refl
rendered_lem (suc zero) h = refl
rendered_lem (suc (suc i)) h = absurd (omega (arith, h))

render_portal_sql-fill_example :
    render_portal_sql plain two_values
    ≡ ok (codes "SELECT " ++ fill rendered ((1, codes ", ") ∷ (2, []) ∷ []))
unfolding to_decimal
render_portal_sql-fill_example =
    render_portal_sql-fill plain two_values rendered (codes "SELECT ")
      ((1, codes ", ") ∷ (2, []) ∷ []) refl rendered_lem rendered-IsPlain
      (refl, (refl, (refl, (refl, (refl, (refl, (refl, tt)))))))
      (omega arith, omega arith, (refl, (refl, tt)), refl, (omega arith, omega arith, tt, tt, tt))

key_queries-IsSingle_example :
    IsSingle (primary_key_query (some (codes "a';")) (codes "b"))
    × IsSingle (foreign_key_query (codes "o") (codes "b") true)
    × IsSingle (create_table_script_query (codes "o") (codes "b"))
key_queries-IsSingle_example =
    key_queries-IsSingle (some (codes "a';")) (codes "b") (codes "o") true

abbrev commented : Text
commented = codes "a -- b\n '--' /* c */-"

comments_stripped : strip_sql_comments_for_detection commented ≡ codes "a  \n '--'  -"
unfolding strip_sql_comments_for_detection
comments_stripped = refl

-- A character, a literal with the signs of a comment, both kinds of comments and a single minus sign.
abbrev pieces : List Piece
pieces =
    Piece.character b'a'
    ∷ Piece.literal (codes "--'")
    ∷ Piece.block_comment (codes "c\n")
    ∷ Piece.line_comment (codes " b")
    ∷ Piece.character b'-'
    ∷ []

strip_sql_comments_for_detection-print_example :
    strip_sql_comments_for_detection (print pieces) ≡ print_stripped pieces
unfolding replace_char
strip_sql_comments_for_detection-print_example =
    strip_sql_comments_for_detection-print pieces
      (refl, refl, refl, refl, (refl, (refl, (refl, (refl, refl, refl, refl, tt)))))

contains_word-IsWordIn_example :
    (contains_word (codes "from pg_class_x, pg_class c") (codes "pg_class") ≡ true)
    ↔ IsWordIn (codes "pg_class") none (codes "from pg_class_x, pg_class c")
contains_word-IsWordIn_example =
    contains_word-IsWordIn (codes "from pg_class_x, pg_class c") b'p' (codes "g_class") refl

word_found : contains_word (codes "from pg_class_x, pg_class c") (codes "pg_class") ≡ true
unfolding contains_word
word_found = refl

no_word_found : contains_word (codes "from pg_class_x") (codes "pg_class") ≡ false
unfolding contains_word
no_word_found = refl

counter-EncoderLaws : EncoderLaws counter
counter-EncoderLaws = record {
  fields_in = λ row. row;
  begun = λ s. s;
  new_begun = λ schema. refl;
  encode_field_begun = λ s value h. omega arith;
  take_row_begun = λ s. refl;
  take_row_fields = λ s. refl;
}

abbrev described : List FieldInfo
described = text_field (codes "a") ∷ text_field (codes "b") ∷ []

abbrev ragged : List TextRow
ragged = (some (codes "1") ∷ []) ∷ (none ∷ some (codes "2") ∷ some (codes "3") ∷ []) ∷ []

text_response-IsWide_example :
    IsWide counter-EncoderLaws.fields_in 2 (text_response counter described ragged none).rows
text_response-IsWide_example =
    text_response-IsWide counter counter-EncoderLaws described ragged none
