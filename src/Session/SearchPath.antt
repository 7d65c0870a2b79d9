-- ===== src/Session/SearchPath.antt =====
-- SET search_path and SHOW search_path.
use exa_postgres_interface.Base.{[], ◌∷◌, some, Result, ok, err, ◌≡◌, Result-cases, inl, inr}
use exa_postgres_interface.Base.Text.{Text, codes}
use exa_postgres_interface.Crates.{Crates}
use exa_postgres_interface.Session.{
  ExasolOutcome, GatewayResponse, Database, SessionState, Responses,
}
use exa_postgres_interface.Session.Statements.{open_schema_sql, set_search_path, show_search_path}

module _ {k : Crates} {db : Database k} where
  -- What SHOW has to say behind a SET, by the database's answer to OPEN SCHEMA.
  abbrev pub shown_after : SessionState db → Text → Result (ExasolOutcome k) → Responses k
  shown_after s schema (ok _) =
      ok (GatewayResponse.query (codes "search_path" ∷ []) ((some schema ∷ []) ∷ []) ∷ [])
  shown_after s schema (err _) = (show_search_path s).1

-- SHOW search_path behind a SET of it gives the new schema if the database has opened that schema,
-- and what it gave before if the database has refused.
pub show_search_path-set_search_path :
    {k : Crates} {db : Database k} (s : SessionState db) (schema : Text)
    → (show_search_path (set_search_path s schema).0).1
      ≡ shown_after s schema (db.execute s.exasol (open_schema_sql schema)).1
unfolding set_search_path show_search_path
show_search_path-set_search_path {db = db} s schema =
    elim (Result-cases (db.execute s.exasol (open_schema_sql schema)).1) [
      | inl (o, e) ↦ rw (e, set_search_path)
      | inr (x, e) ↦ rw (e, set_search_path)
    ]
