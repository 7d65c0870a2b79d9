-- ===== src/Tests/Transport.antt =====
-- A concrete JSON library and a server that serves one row at a time, and instances of the theorems on
-- the transport, the configuration, the bootstrap and the types.
use exa_postgres_interface.Base.{
  ℕ, suc, zero, true, false, [], ◌∷◌, ◌++◌, Option, none, some, if◌then◌else◌, ◌≡◌, ◌<◌, ◌-◌, ◌/◌,
  ◌%◌, ◌^◌, refl, arith,
}
use exa_postgres_interface.Base.Int.{pos}
use exa_postgres_interface.Base.Text.{
  Text, codes, text_eq, is_whitespace, trim, to_decimal, to_ascii_uppercase, show_ℤ,
}
use exa_postgres_interface.Bootstrap.{toml_escape}
use exa_postgres_interface.Bootstrap.Escape.{read_basic, read_basic-toml_escape}
use exa_postgres_interface.Cursor.{TextRow}
use exa_postgres_interface.Exasol.{ExasolConfig, ExasolResult}
use exa_postgres_interface.Exasol.Certificates.{
  parse_endpoint_lem, certificate_policy-endpoint_fingerprint,
}
use exa_postgres_interface.Exasol.Endpoint.{
  parse_endpoint, certificate_policy, endpoint_fingerprint,
}
use exa_postgres_interface.Exasol.Fetching.{fetch_loop-all, ServesFrom, CountsNone, fetch_loop-none}
use exa_postgres_interface.Exasol.Json.{Json, Kind}
use exa_postgres_interface.Exasol.Transpose.{transpose_data, value_to_text}
use exa_postgres_interface.Exasol.WebSocket.{fetch_loop, chunk_rows}
use exa_postgres_interface.Metadata.Types.{decimal_typmod}
use exa_postgres_interface.Metadata.Typmod.{decimal_typmod_lem}
use exa_postgres_interface.Session.Types.{
  Field, DataType, pg_type_for_arrow_field, pg_type_for_exasol_data_type,
}
use exa_postgres_interface.Session.TypesAgree.{
  SharedType, IsSameNumber, SameColumn, pg_type_for_arrow_field-pg_type_for_exasol_data_type,
}
use exa_postgres_interface.Tests.{no_regexes}

-- The values of a small JSON library: the parts of a result set, of a column's description and of
-- the answers to a fetch.
data Doc : Type 0 where
  nothing letter letters columns description decimal_name eighteen nought answer chunk bare_answer
        bare_chunk :
      Doc

abbrev numbered_get : Doc → Text → Option Doc
numbered_get Doc.description key =
    if text_eq key (codes "type")
    then some Doc.decimal_name
    else if text_eq key (codes "precision")
    then some Doc.eighteen
    else if text_eq key (codes "scale")
    then some Doc.nought
    else none
numbered_get Doc.answer key = if text_eq key (codes "responseData") then some Doc.chunk else none
numbered_get Doc.chunk key = if text_eq key (codes "data") then some Doc.columns else none
numbered_get Doc.bare_answer key =
    if text_eq key (codes "responseData") then some Doc.bare_chunk else none
numbered_get Doc.bare_chunk key = if text_eq key (codes "numRows") then some Doc.nought else none
numbered_get _ key = none

abbrev numbered_kind : Doc → Kind Doc
numbered_kind Doc.nothing = Kind.null
numbered_kind Doc.letter = Kind.string (codes "a")
numbered_kind Doc.letters = Kind.array (Doc.letter ∷ [])
numbered_kind Doc.columns = Kind.array (Doc.letters ∷ [])
numbered_kind Doc.decimal_name = Kind.string (codes "DECIMAL")
numbered_kind Doc.eighteen = Kind.number (codes "18")
numbered_kind Doc.nought = Kind.number (codes "0")
numbered_kind _ = Kind.object

abbrev numbered_value : Doc → Option ℕ
numbered_value Doc.eighteen = some 18
numbered_value Doc.nought = some 0
numbered_value _ = none

abbrev numbered : Json Doc
numbered = record {
  kind = numbered_kind;
  render = λ v. codes "{}";
  get = numbered_get;
  pointer = λ v path. none;
  as_u64 = numbered_value;
  as_i64 = λ v. elim (numbered_value v) [ none ↦ none | some n ↦ some (pos n) ];
  null_value = Doc.nothing;
  parse = λ t. some Doc.description;
  execute_request = λ sql. sql;
  fetch_request = λ handle position size. [];
}

abbrev row : TextRow
row = some (codes "a") ∷ []

abbrev one_each : ℕ → ℕ → Option (ℕ × ExasolResult Doc)
one_each position w = some (suc w, ExasolResult.ok Doc.answer)

one_each-serves :
    (position : ℕ) (w : ℕ)
    → position < 2
    → ServesFrom numbered one_each (row ∷ row ∷ []) position (one_each position w)
unfolding chunk_rows transpose_data value_to_text
one_each-serves zero w h = record {
  world = suc w;
  ret = Doc.answer;
  count = 1;
  answered = refl;
  some_rows = omega arith;
  within = omega arith;
  holds = refl;
}
one_each-serves (suc zero) w h = record {
  world = suc w;
  ret = Doc.answer;
  count = 1;
  answered = refl;
  some_rows = omega arith;
  within = omega arith;
  holds = refl;
}
one_each-serves (suc (suc n)) w h = absurd (omega (arith, h))

fetch_loop-all_example :
    (w' : ℕ) × (fetch_loop numbered one_each 3 2 0 [] 0
      ≡ some (w', ExasolResult.ok (row ∷ row ∷ [])))
fetch_loop-all_example =
    fetch_loop-all numbered one_each (row ∷ row ∷ []) one_each-serves 3 0 0 (omega arith)
      (omega arith)

abbrev none_each : ℕ → ℕ → Option (ℕ × ExasolResult Doc)
none_each position w = some (suc w, ExasolResult.ok Doc.bare_answer)

none_each-counts : (position : ℕ) (w : ℕ) → CountsNone numbered none_each (none_each position w)
unfolding chunk_rows transpose_data
none_each-counts position w = record {
  world = suc w;
  ret = Doc.bare_answer;
  rows = [];
  answered = refl;
  holds = refl;
}

fetch_loop-none_example : fetch_loop numbered none_each 100 2 0 [] 0 ≡ none
fetch_loop-none_example =
    fetch_loop-none numbered none_each none_each-counts 100 2 0 [] 0 (omega arith)

abbrev config : ExasolConfig
config = record {
  dsn = codes "db:8563";
  encryption = true;
  certificate_fingerprint = codes "ab12";
  validate_certificate = true;
  pass_client_credentials = true;
  schema = [];
  transport = codes "arrow";
}

parse_endpoint_lem_example :
    parse_endpoint (codes "db" ++ b':' ∷ to_decimal 8563 ++ b',' ∷ codes "other:1") config
    ≡ ExasolResult.ok (record { host = codes "db"; port = 8563; fingerprint = some (codes "AB12") })
unfolding is_whitespace trim to_ascii_uppercase
parse_endpoint_lem_example =
    parse_endpoint_lem (codes "db") 8563 (codes "other:1") config
      ((refl, refl, refl), ((refl, refl, refl), tt)) (omega arith)

certificate_policy-endpoint_fingerprint_example :
    certificate_policy
      (record { host = codes "db"; port = 8563; fingerprint = endpoint_fingerprint config none })
      config
    ≡ (true, endpoint_fingerprint config none)
unfolding trim to_ascii_uppercase
certificate_policy-endpoint_fingerprint_example =
    certificate_policy-endpoint_fingerprint (codes "db") 8563 config none refl
      (λ e. absurd (ground (arith, e))) (λ f e. absurd (ground (arith, e)))

read_basic-toml_escape_example :
    read_basic false (toml_escape (codes "a\"b\\") ++ b'"' ∷ codes " x")
    ≡ some (codes "a\"b\\", codes " x")
read_basic-toml_escape_example = read_basic-toml_escape (codes "a\"b\\") (codes " x") refl

decimal_typmod_lem_example :
    (n : ℕ) × (decimal_typmod 18 4 ≡ pos n) × ((n - 4) / 2 ^ 16 ≡ 18) × ((n - 4) % 2 ^ 16 ≡ 4)
decimal_typmod_lem_example = decimal_typmod_lem 18 4 (omega arith) (omega arith)

abbrev decimal_metadata : Text → Option Text
decimal_metadata key =
    if text_eq key (codes "exasol:type")
    then some (codes "{}")
    else if text_eq key (codes "exasol:precision")
    then some (show_ℤ (pos 18))
    else if text_eq key (codes "exasol:scale")
    then some (show_ℤ (pos 0))
    else none

abbrev field : Field
field = record {
  name = codes "d";
  data_type = DataType.decimal128 (pos 18) (pos 0);
  metadata = decimal_metadata;
}

field-SameColumn : SameColumn numbered Doc.description field
unfolding to_ascii_uppercase
field-SameColumn = record {
  shared = SharedType.decimal;
  name = codes "DECIMAL";
  json = codes "{}";
  name_value = Doc.decimal_name;
  object = refl;
  has_name = refl;
  named = refl;
  upper = refl;
  described = refl;
  parsed = refl;
  numbers = (
    IsSameNumber.present (pos 18) Doc.eighteen (omega arith) refl refl refl,
    IsSameNumber.present (pos 0) Doc.nought (omega arith) refl refl refl,
  );
}

pg_type_for_arrow_field-pg_type_for_exasol_data_type_example :
    pg_type_for_arrow_field numbered field
    ≡ pg_type_for_exasol_data_type numbered no_regexes Doc.description
pg_type_for_arrow_field-pg_type_for_exasol_data_type_example =
    pg_type_for_arrow_field-pg_type_for_exasol_data_type numbered no_regexes Doc.description field
      field-SameColumn
