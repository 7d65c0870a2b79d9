-- ===== src/Session/Startup/Admitted.antt =====
-- Who gets a session by `on_startup` of src/pg_server.rs.
use exa_postgres_interface.Base.{
  true, false, not, ◌&&◌, Bool-cases, inl, inr, Option-cases, none, some, PgError, Result,
  Result-cases, ok, err, ◌≡◌, ◌⊎◌, refl, sym, ◌∙◌,
}
use exa_postgres_interface.Base.Text.{Text, is_empty}
use exa_postgres_interface.Crates.{Crates}
use exa_postgres_interface.Exasol.{ExasolError, ExasolResult, AppConfig}
use exa_postgres_interface.Exasol.Connect.{ExasolTransport, Connecting, connect, initialize}
use exa_postgres_interface.Session.{SessionState, Client}
use exa_postgres_interface.Session.Startup.{
  Startup, StartupWire, exasol_database, connect_exasol, on_startup, new_session,
}

ExasolResult-cases {ℓ} :
    {A : Type ℓ} (r : ExasolResult A)
    → ((a : A) × (r ≡ ExasolResult.ok a)) ⊎ ((e : ExasolError) × (r ≡ ExasolResult.err e))
ExasolResult-cases (ExasolResult.ok a) = inl (a, refl)
ExasolResult-cases (ExasolResult.err e) = inr (e, refl)

ok-injective {ℓ} : {A : Type ℓ} {x y : A} → Result.ok x ≡ Result.ok y → x ≡ y
ok-injective h = cc

not_accepted {ℓ} : {A : Type ℓ} {e : PgError} {x : A} → ¬ (err e ≡ Result.ok x)
not_accepted h = cc

not_some {ℓ} : {A : Type ℓ} {x : A} → ¬ (none ≡ some x)
not_some h = cc

some-injective {ℓ} : {A : Type ℓ} {x y : A} → some x ≡ some y → x ≡ y
some-injective h = cc

module _ {k : Crates} {W : Type 0} (arrow web_socket : Connecting k W) (config : AppConfig) where
  -- The initialization of a session: its statements ran without an error where the translation has a script.
  pub data IsPrepared (transport : ExasolTransport k W) : W → W → Type 0 where
    unprepared :
        (w : W)
        → config.translation.enabled && not (is_empty config.translation.sql_preprocessor_script)
          ≡ false
        → IsPrepared transport w w
    prepared :
        (w : W) (unit : Unit {0})
        → config.translation.enabled && not (is_empty config.translation.sql_preprocessor_script)
          ≡ true
        → (initialize transport config.translation.session_init_sql
            config.translation.sql_preprocessor_script w).1
          ≡ ExasolResult.ok unit
        → IsPrepared transport w
            (initialize transport config.translation.session_init_sql
              config.translation.sql_preprocessor_script w).0

  -- A clear password came with a user, and Exasol accepted the two for the connection of the session.
  pub data IsAdmitted (p : StartupWire) (c : p.World) (w : W) (message : Startup)
      (s : SessionState (exasol_database k W)) : Type 0 where
    admitted :
        (username password : Text)
        → message ≡ Startup.password_family (ok password)
        → p.user c ≡ some username
        → (transport : ExasolTransport k W)
        → (connect arrow web_socket config.exasol username password w).1 ≡ ExasolResult.ok transport
        → (w' : W)
        → IsPrepared transport (connect arrow web_socket config.exasol username password w).0 w'
        → s ≡ new_session arrow web_socket config w' transport
        → IsAdmitted p c w message s

  -- A connection that Exasol accepted, and the session on it.
  pub data IsConnection (username password : Text) (w : W) (s : SessionState (exasol_database k W))
      : Type 0 where
    connection :
        (transport : ExasolTransport k W)
        → (connect arrow web_socket config.exasol username password w).1 ≡ ExasolResult.ok transport
        → (w' : W)
        → IsPrepared transport (connect arrow web_socket config.exasol username password w).0 w'
        → s ≡ new_session arrow web_socket config w' transport
        → IsConnection username password w s

  connect_exasol-connect :
      (username password : Text) (w : W) (s : SessionState (exasol_database k W))
      → (connect_exasol arrow web_socket config username password w).1 ≡ ok s
      → IsConnection username password w s
  unfolding connect_exasol new_session
  connect_exasol-connect username password w s h =
      elim (ExasolResult-cases (connect arrow web_socket config.exasol username password w).1) [
        | inr (e, f) ↦ absurd (not_accepted (rw (f, connect_exasol) at h))
        | inl (t, f) ↦
            elim (Bool-cases (
              config.translation.enabled
              && not (is_empty config.translation.sql_preprocessor_script))) [
                | inl b ↦
                    elim (ExasolResult-cases
                      (initialize t config.translation.session_init_sql
                        config.translation.sql_preprocessor_script
                        (connect arrow web_socket config.exasol username password w).0).1) [
                          | inr (e, g) ↦ absurd (not_accepted (rw (f, b, g, connect_exasol) at h))
                          | inl (u, g) ↦
                              connection t f _ (prepared _ u b g)
                                (sym (ok-injective (rw (f, b, g, connect_exasol) at h)))
                        ]
                | inr b ↦
                    connection t f _ (unprepared _ b)
                      (sym (ok-injective (rw (f, b, connect_exasol) at h)))
              ]
      ]

  -- A client without a session has one after a message of the start-up only if a clear password came with a
  -- user, Exasol accepted the two for the connection, and the initial statements of the session ran without
  -- an error where the translation has a script. The session is then a new one on this connection: no cursor
  -- is open, no result is kept and no schema is set.
  pub on_startup-IsAdmitted :
      (p : StartupWire) (client : Client (exasol_database k W)) (c : p.World) (w : W)
      (message : Startup) (s : SessionState (exasol_database k W))
      → client.session ≡ none
      → (on_startup arrow web_socket config p client c w message).0.session ≡ some s
      → IsAdmitted p c w message s
  unfolding on_startup
  on_startup-IsAdmitted p client c w Startup.another s e h = absurd cc
  on_startup-IsAdmitted p client c w Startup.startup s e h = absurd cc
  on_startup-IsAdmitted p client c w (Startup.password_family (err x)) s e h = absurd cc
  on_startup-IsAdmitted p client c w (Startup.password_family (ok password)) s e h =
      elim (Option-cases (p.user c)) [
        | inl f ↦ absurd (not_some (sym e ∙ (rw (f, on_startup) at h)))
        | inr (username, f) ↦
            elim (Result-cases (connect_exasol arrow web_socket config username password w).1) [
              | inr (x, g) ↦ absurd (not_some (sym e ∙ (rw (f, g, on_startup) at h)))
              | inl (session, g) ↦ elim (connect_exasol-connect username password w session g) [
                | connection transport accepted w' ready fresh ↦
                    admitted username password refl f transport accepted w' ready
                      (sym (some-injective (rw (f, g, on_startup) at h)) ∙ fresh)
              ]
            ]
      ]
