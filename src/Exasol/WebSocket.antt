-- ===== src/Exasol/WebSocket.antt =====
-- The JSON transport of src/exasol/websocket_transport.rs: one request at a time over a socket. The
-- loops take a unit of fuel for each message or chunk; `none` is a loop that did not end.
use exa_postgres_interface.Base.{
  ℕ, zero, suc, ◌+◌, true, false, ltb, if◌then◌else◌, List, [], ◌++◌, map, Option, none, some,
  length,
}
use exa_postgres_interface.Base.Int.{ℤ, pos}
use exa_postgres_interface.Base.Text.{Text, codes, text_eq}
use exa_postgres_interface.Crates.{Crates}
use exa_postgres_interface.Cursor.{TextRow, ExasolColumn}
use exa_postgres_interface.Exasol.{ExasolError, ExasolResult}
use exa_postgres_interface.Exasol.Json.{Json, as_str, as_array, member}
use exa_postgres_interface.Exasol.Transpose.{transpose_data}
use exa_postgres_interface.Session.{ExasolOutcome}

-- `Message` of the crate tungstenite.
pub data Message : Type 0 where
  text : Text → Message
  binary ping pong : List ℕ → Message
  frame : Message
  close : Message

-- The socket: `send` and `next`, and `String::from_utf8`.
pub record Socket : Type 1 where
  pub World : Type 0
  pub send : World → Message → World × ExasolResult (Unit {0})
  pub next : World → World × Option (ExasolResult Message)
  pub from_utf8 : List ℕ → Option Text

abbrev closed : ExasolError
closed = ExasolError.request (codes "Exasol closed websocket while waiting for response")

-- The answer in a message, if it is one.
unfoldable pub response_text_from_message : Socket → Message → ExasolResult (Option Text)
response_text_from_message ws (Message.text t) = ExasolResult.ok (some t)
response_text_from_message ws (Message.binary bytes) = elim (ws.from_utf8 bytes) [
  | some t ↦ ExasolResult.ok (some t)
  | none ↦ ExasolResult.err (ExasolError.request (codes "invalid UTF-8 response"))
]
response_text_from_message ws (Message.pong _) = ExasolResult.ok none
response_text_from_message ws Message.frame = ExasolResult.ok none
response_text_from_message ws (Message.ping _) = ExasolResult.ok none
response_text_from_message ws Message.close = ExasolResult.err closed

-- What a round of `read_json_response` makes of one message: go on, or end with an answer.
unfoldable pub on_message :
    (ws : Socket) → ws.World → Message → ws.World × Option (ExasolResult Text)
unfolding response_text_from_message
on_message ws w (Message.ping payload) =
    let (w', sent) = ws.send w (Message.pong payload) in
    (w', elim sent [ ExasolResult.err e ↦ some (ExasolResult.err e) | ExasolResult.ok _ ↦ none ])
on_message ws w (Message.text t) = (w, some (ExasolResult.ok t))
on_message ws w message = elim (response_text_from_message ws message) [
  | ExasolResult.err e ↦ (w, some (ExasolResult.err e))
  | ExasolResult.ok none ↦ (w, none)
  | ExasolResult.ok (some t) ↦ (w, some (ExasolResult.ok t))
]

unfoldable pub read_json_response :
    ℕ → (ws : Socket) → ws.World → Option (ws.World × ExasolResult Text)
unfolding on_message
read_json_response zero ws w = none
read_json_response (suc fuel) ws w =
    let (w', received) = ws.next w in
    elim received [
      | none ↦ some (w', ExasolResult.err closed)
      | some answer ↦ elim answer [
        | ExasolResult.err e ↦ some (w', ExasolResult.err e)
        | ExasolResult.ok message ↦
            let (w'', ended) = on_message ws w' message in
            elim ended [ some result ↦ some (w'', result) | none ↦ read_json_response fuel ws w'' ]
      ]
    ]

abbrev or_text : Option Text → Text → Text
or_text none t = t
or_text (some s) t = s

abbrev or_count : Option ℕ → ℕ → ℕ
or_count none n = n
or_count (some m) n = m

abbrev or_zero : Option ℤ → ℤ
or_zero none = pos 0
or_zero (some z) = z

module _ {Value : Type 0} (j : Json Value) where
  -- A response is good if its status says so.
  unfoldable pub response_result : Value → ExasolResult Value
  response_result response =
      if text_eq (or_text (member j response (codes "status") (as_str j)) []) (codes "ok")
      then ExasolResult.ok response
      else let part : Text → Option Text =
          λ path. elim (j.pointer response path) [ none ↦ none | some v ↦ as_str j v ] in
        ExasolResult.err (
          ExasolError.execution (
            or_text (part (codes "/exception/text")) (codes "unknown Exasol error")
            ++ codes " (SQL code: "
            ++ or_text (part (codes "/exception/sqlCode")) (codes "unknown")
            ++ codes ")"))

  -- `request`: send a payload, read the next answer, look at its status.
  unfoldable pub request :
      ℕ → (ws : Socket) → ws.World → Text → Option (ws.World × ExasolResult Value)
  unfolding read_json_response response_result
  request fuel ws w payload =
      let (w', sent) = ws.send w (Message.text payload) in
      elim sent [
        | ExasolResult.err e ↦ some (w', ExasolResult.err e)
        | ExasolResult.ok _ ↦ elim (read_json_response fuel ws w') [
          | none ↦ none
          | some (w'', answer) ↦ elim answer [
            | ExasolResult.err e ↦ some (w'', ExasolResult.err e)
            | ExasolResult.ok t ↦ elim (j.parse t) [
              | none ↦ some (w'', ExasolResult.err (ExasolError.request (codes "invalid JSON")))
              | some response ↦ some (w'', response_result response)
            ]
          ]
        ]
      ]

  -- One chunk of a fetch: its rows, and how many the server says they are.
  unfoldable pub chunk_rows : Value → ExasolResult (List TextRow × ℕ)
  unfolding transpose_data
  chunk_rows ret = elim (j.get ret (codes "responseData")) [
    | none ↦ ExasolResult.err (ExasolError.execution (codes "missing fetch responseData"))
    | some chunk ↦
        let rows = transpose_data j (j.get chunk (codes "data")) in
        ExasolResult.ok (rows, or_count (member j chunk (codes "numRows") j.as_u64) (length rows))
  ]

  -- The loop of `parse_result_set`, over the call that fetches a chunk from a position on.
  unfoldable pub fetch_loop {ℓ} :
      {W : Type ℓ}
      → (ℕ → W → Option (W × ExasolResult Value))
      → ℕ
      → ℕ
      → ℕ
      → List TextRow
      → W
      → Option (W × ExasolResult (List TextRow))
  unfolding chunk_rows
  fetch_loop fetch zero total fetched rows w = none
  fetch_loop fetch (suc fuel) total fetched rows w = elim (ltb fetched total) [
    | false ↦ some (w, ExasolResult.ok rows)
    | true ↦ elim (fetch fetched w) [
      | none ↦ none
      | some (w', answer) ↦ elim answer [
        | ExasolResult.err e ↦ some (w', ExasolResult.err e)
        | ExasolResult.ok ret ↦ elim (chunk_rows ret) [
          | ExasolResult.err e ↦ some (w', ExasolResult.err e)
          | ExasolResult.ok (more, count) ↦
              fetch_loop fetch fuel total (fetched + count) (rows ++ more) w'
        ]
      ]
    ]
  ]

  -- The rows of a result set: those in the message, and those fetched by its handle, if it has one.
  unfoldable pub result_rows :
      ℕ → (ws : Socket) → ws.World → Value → Option (ws.World × ExasolResult (List TextRow))
  unfolding fetch_loop transpose_data request
  result_rows fuel ws w result_set =
      let rows = transpose_data j (j.get result_set (codes "data")) in
      let total = or_count (member j result_set (codes "numRows") j.as_u64) 0 in
      let fetched =
        or_count (member j result_set (codes "numRowsInMessage") j.as_u64) (length rows) in
      elim (member j result_set (codes "resultSetHandle") j.as_u64) [
        | none ↦ some (w, ExasolResult.ok rows)
        | some handle ↦
            fetch_loop (λ position w. request fuel ws w (j.fetch_request handle position 5242880))
              fuel total fetched rows w
      ]

module _ {k : Crates} (j : Json k.Value) where
  abbrev column_of : k.Value → ExasolColumn k
  column_of column = record {
    name = or_text (member j column (codes "name") (as_str j)) (codes "column");
    data_type = elim (j.get column (codes "dataType")) [ none ↦ j.null_value | some v ↦ v ];
  }

  unfoldable pub parse_columns : k.Value → ExasolResult (List (ExasolColumn k))
  parse_columns result_set = elim (member j result_set (codes "columns") (as_array j)) [
    | none ↦ ExasolResult.err (ExasolError.execution (codes "missing resultSet columns"))
    | some columns ↦ ExasolResult.ok (map column_of columns)
  ]

  unfoldable pub parse_result_set :
      ℕ → (ws : Socket) → ws.World → k.Value → Option (ws.World × ExasolResult (ExasolOutcome k))
  unfolding parse_columns result_rows
  parse_result_set fuel ws w result = elim (j.get result (codes "resultSet")) [
    | none ↦ some (w, ExasolResult.err (ExasolError.execution (codes "missing resultSet")))
    | some result_set ↦ elim (parse_columns result_set) [
      | ExasolResult.err e ↦ some (w, ExasolResult.err e)
      | ExasolResult.ok columns ↦ elim (result_rows j fuel ws w result_set) [
        | none ↦ none
        | some (w', answer) ↦ elim answer [
          | ExasolResult.err e ↦ some (w', ExasolResult.err e)
          | ExasolResult.ok rows ↦
              some (w', ExasolResult.ok (ExasolOutcome.typed_rows columns rows))
        ]
      ]
    ]
  ]

  -- The result of a statement, by its type.
  unfoldable pub execute_result :
      ℕ → (ws : Socket) → ws.World → k.Value → Option (ws.World × ExasolResult (ExasolOutcome k))
  unfolding parse_result_set
  execute_result fuel ws w ret = elim (j.pointer ret (codes "/responseData/results/0")) [
    | none ↦ some (w, ExasolResult.err (ExasolError.execution (codes "missing execute result")))
    | some result ↦ elim (member j result (codes "resultType") (as_str j)) [
      | none ↦ some (w, ExasolResult.err (ExasolError.execution (codes "missing resultType")))
      | some kind ↦ elim (text_eq kind (codes "rowCount")) [
        | true ↦ some (
          w,
          ExasolResult.ok
              (ExasolOutcome.row_count (or_zero (member j result (codes "rowCount") j.as_i64))),
        )
        | false ↦ elim (text_eq kind (codes "resultSet")) [
          | true ↦ parse_result_set fuel ws w result
          | false ↦ some (
            w,
            ExasolResult.err (ExasolError.execution (codes "unsupported resultType: " ++ kind)),
          )
        ]
      ]
    ]
  ]

  unfoldable pub ws_execute :
      ℕ → (ws : Socket) → ws.World → Text → Option (ws.World × ExasolResult (ExasolOutcome k))
  unfolding request execute_result
  ws_execute fuel ws w sql = elim (request j fuel ws w (j.execute_request sql)) [
    | none ↦ none
    | some (w', answer) ↦ elim answer [
      | ExasolResult.err e ↦ some (w', ExasolResult.err e)
      | ExasolResult.ok ret ↦ execute_result fuel ws w' ret
    ]
  ]

  -- `execute_update` wants a row count.
  unfoldable pub update_result : ExasolOutcome k → ExasolResult (Unit {0})
  update_result (ExasolOutcome.row_count _) = ExasolResult.ok tt
  update_result (ExasolOutcome.arrow_rows _) = ExasolResult.err (
      ExasolError.execution
        (codes "execute_update received a result-set response; expected row count only"))
  update_result (ExasolOutcome.typed_rows _ _) = ExasolResult.err (
      ExasolError.execution
        (codes "execute_update received a result-set response; expected row count only"))
