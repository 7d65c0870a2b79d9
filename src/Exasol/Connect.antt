-- ===== src/Exasol/Connect.antt =====
-- `ExasolSession` of src/exasol/mod.rs: a session over one of the two transports.
use exa_postgres_interface.Base.{List, [], ◌∷◌}
use exa_postgres_interface.Base.Text.{Text, codes, replace}
use exa_postgres_interface.Crates.{Crates}
use exa_postgres_interface.Exasol.{ExasolError, ExasolResult, ExasolConfig}
use exa_postgres_interface.Exasol.Endpoint.{
  EndpointConnection, Transport, Checked, from_config, parse_endpoint,
}
use exa_postgres_interface.Session.{ExasolOutcome}

-- `dyn ExasolTransport`: what a connection does to the world.
pub record ExasolTransport (k : Crates) (W : Type 0) : Type 0 where
  pub execute : Text → W → W × ExasolResult (ExasolOutcome k)
  pub execute_update : Text → W → W × ExasolResult (Unit {0})
  pub close : W → W × ExasolResult (Unit {0})

-- The `connect` of a transport.
abbrev pub Connecting : Crates → Type 0 → Type 0
Connecting k W =
    ExasolConfig → EndpointConnection → Text → Text → W → W × ExasolResult (ExasolTransport k W)

module _ {k : Crates} {W : Type 0} where
  abbrev pub connect_by : Connecting k W → Connecting k W → Transport → Connecting k W
  connect_by arrow web_socket Transport.arrow = arrow
  connect_by arrow web_socket Transport.web_socket = web_socket

  unfoldable pub connect :
      Connecting k W
      → Connecting k W
      → ExasolConfig
      → Text
      → Text
      → W
      → W × ExasolResult (ExasolTransport k W)
  unfolding parse_endpoint from_config
  connect arrow web_socket config username password w = elim (parse_endpoint config.dsn config) [
    | ExasolResult.err e ↦ (w, ExasolResult.err e)
    | ExasolResult.ok endpoint ↦ elim (from_config config) [
      | Checked.invalid message ↦ (w, ExasolResult.err (ExasolError.connection message))
      | Checked.valid transport ↦
          connect_by arrow web_socket transport config endpoint username password w
    ]
  ]

  -- Each template of `session_init_sql` with the script in it, up to the first that fails.
  unfoldable pub initialize :
      ExasolTransport k W → List Text → Text → W → W × ExasolResult (Unit {0})
  unfolding replace
  initialize t [] script w = (w, ExasolResult.ok tt)
  initialize t (template ∷ templates) script w =
      let (w', answer) = t.execute_update (replace (codes "{script}") script template) w in
      elim answer [
        | ExasolResult.err e ↦ (w', ExasolResult.err e)
        | ExasolResult.ok _ ↦ initialize t templates script w'
      ]
