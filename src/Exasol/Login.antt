-- ===== src/Exasol/Login.antt =====
-- `connect`, `login` and `close` of src/exasol/websocket_transport.rs.
use exa_postgres_interface.Base.{ℕ, not, ◌++◌, Option, none, some, if◌then◌else◌}
use exa_postgres_interface.Base.Text.{Text, codes, to_decimal}
use exa_postgres_interface.Exasol.{ExasolError, ExasolResult, ExasolConfig, display}
use exa_postgres_interface.Exasol.Endpoint.{EndpointConnection, Checked}
use exa_postgres_interface.Exasol.Handshake.{Connector, build_connector}
use exa_postgres_interface.Exasol.Json.{Json, as_str}
use exa_postgres_interface.Exasol.WebSocket.{Socket, Message, request}

-- What log-in uses of other crates: the printed requests, the encryption of the password by a public
-- key (which draws random bits), and the opening of the connection.
pub record LoginCrates (ws : Socket) : Type 0 where
  pub login_request : Text
  pub credentials_request : ExasolConfig → Text → Text → Text
  pub disconnect_request : Text
  pub encrypt : ws.World → Text → Text → ws.World × Checked Text
  pub tcp_connect : ws.World → Text → ℕ → ws.World × Checked (Unit {0})
  pub open_websocket : ws.World → Text → Connector → ws.World × Checked (Unit {0})
  pub close_websocket : ws.World → ws.World

module _ {Value : Type 0} (j : Json Value) {ws : Socket} (l : LoginCrates ws) where
  unfoldable pub encrypt_password : ws.World → Text → Text → ws.World × ExasolResult Text
  encrypt_password w public_key_pem password =
      let (w', encrypted) = l.encrypt w public_key_pem password in
      (
        w',
        elim encrypted [
          | Checked.valid text ↦ ExasolResult.ok text
          | Checked.invalid message ↦ ExasolResult.err (ExasolError.authentication message)
        ],
      )

  abbrev public_key : Value → Option Text
  public_key ret = elim (j.pointer ret (codes "/responseData/publicKeyPem")) [
    | none ↦ none
    | some pem ↦ as_str j pem
  ]

  -- Any error of the second request is an error of authentication.
  abbrev pub logged_in : ExasolResult Value → ExasolResult (Unit {0})
  unfolding display
  logged_in (ExasolResult.ok _) = ExasolResult.ok tt
  logged_in (ExasolResult.err e) = ExasolResult.err (ExasolError.authentication (display e))

  unfoldable pub login :
      ℕ → ExasolConfig → Text → Text → ws.World → Option (ws.World × ExasolResult (Unit {0}))
  unfolding request encrypt_password logged_in
  login fuel config username password w = elim (request j fuel ws w l.login_request) [
    | none ↦ none
    | some (w', answer) ↦ elim answer [
      | ExasolResult.err e ↦ some (w', ExasolResult.err e)
      | ExasolResult.ok ret ↦ elim (public_key ret) [
        | none ↦
            some (
              w',
              ExasolResult.err (ExasolError.authentication (codes "missing Exasol public key")),
            )
        | some pem ↦
            let (w'', encrypted) = encrypt_password w' pem password in
            elim encrypted [
              | ExasolResult.err e ↦ some (w'', ExasolResult.err e)
              | ExasolResult.ok encrypted_password ↦
                  elim (request j fuel ws w''
                    (l.credentials_request config username encrypted_password)) [
                      | none ↦ none
                      | some (w3, answered) ↦ some (w3, logged_in answered)
                    ]
            ]
      ]
    ]
  ]

  abbrev connection_error : Text → ExasolResult (Unit {0})
  connection_error message = ExasolResult.err (ExasolError.connection message)

  unfoldable pub websocket_connect :
      ℕ
      → ExasolConfig
      → EndpointConnection
      → Text
      → Text
      → ws.World
      → Option (ws.World × ExasolResult (Unit {0}))
  unfolding build_connector login to_decimal
  websocket_connect fuel config endpoint username password w =
      if not config.pass_client_credentials
      then some (
        w,
        ExasolResult.err (
            ExasolError.authentication (codes "only client credential passthrough is implemented")),
      )
      else let (w1, tcp) = l.tcp_connect w endpoint.host endpoint.port in
        elim tcp [
          | Checked.invalid message ↦ some (w1, connection_error message)
          | Checked.valid _ ↦
              let scheme = if config.encryption then codes "wss" else codes "ws" in
              let url =
                scheme
                ++ (codes "://"
                    ++ (endpoint.host ++ (codes ":" ++ (to_decimal endpoint.port ++ codes "/")))) in
              let (w2, opened) = l.open_websocket w1 url (build_connector config endpoint) in
              elim opened [
                | Checked.invalid message ↦ some (w2, connection_error message)
                | Checked.valid _ ↦ login fuel config username password w2
              ]
        ]

  -- Whether the messages could be sent does not matter.
  unfoldable pub websocket_close : ws.World → ws.World × ExasolResult (Unit {0})
  websocket_close w =
      let (w', sent) = ws.send w (Message.text l.disconnect_request) in
      (l.close_websocket w', ExasolResult.ok tt)
