-- ===== src/Session/Extended/Portals/Once.antt =====
-- Describe and Execute of a portal run its statement once.
use exa_postgres_interface.Base.{
  true, Option, none, some, Option-cases, Result, ok, err, Result-cases, inl, inr, List, ◌≡◌, refl,
  ap, ◌∙◌,
}
use exa_postgres_interface.Base.Maps.{insert, remove, insert_same}
use exa_postgres_interface.Base.Text.{Text}
use exa_postgres_interface.Crates.{Crates}
use exa_postgres_interface.Session.{GatewayResponse, Database, SessionState, Client, Responses}
use exa_postgres_interface.Session.Types.{FieldInfo}
use exa_postgres_interface.Session.Extended.{Decoding, Portal}
use exa_postgres_interface.Session.Extended.Parameters.{render_portal_sql}
use exa_postgres_interface.Session.Extended.Portals.{
  Encoding, try_from, pop_or_empty, cache_extended_result, take_cached_extended_result,
  do_describe_portal, execute_response,
}

abbrev pub world_of : {k : Crates} {db : Database k} → Option (SessionState db) → Option db.World
world_of none = none
world_of (some s) = some s.exasol

module _ {k : Crates} {db : Database k} (encoding : Encoding k) (d : Decoding)
    (execute_statement : Client db → Text → Option (Client db × Responses k)) where
  -- Behind a Describe that succeeds: the statement answered with a response of the fields described,
  -- and Execute gives that response, as one described, without the statement and without a change
  -- of the database.
  abbrev pub IsReplayed : Client db → Portal → Option (Client db × Result (List FieldInfo)) → Type 0
  IsReplayed client portal none = Unit {0}
  IsReplayed client portal (some (client', err e)) = Unit {0}
  IsReplayed client portal (some (client', ok described)) =
      (sql : Text) × (before : Client db) × (responses : List (GatewayResponse k)) × (after : Client
        db)
      × (render_portal_sql d portal ≡ ok sql)
      × (execute_statement client sql ≡ some (before, ok responses))
      × (described ≡ encoding.fields (pop_or_empty responses))
      × (execute_response encoding d execute_statement client' portal portal.name
          ≡ some (after, true, try_from encoding (pop_or_empty responses)))
      × (world_of after.session ≡ world_of before.session)

-- Describe runs the statement of a portal, and Execute behind it answers with what that run gave.
pub execute_response-do_describe_portal :
    {k : Crates} {db : Database k} (encoding : Encoding k) (d : Decoding)
    (execute_statement : Client db → Text → Option (Client db × Responses k)) (client : Client db)
    (portal : Portal)
    → IsReplayed encoding d execute_statement client portal
        (do_describe_portal encoding d execute_statement client portal)
unfolding do_describe_portal cache_extended_result execute_response take_cached_extended_result
execute_response-do_describe_portal encoding d execute_statement client portal =
    elim (Result-cases (render_portal_sql d portal)) [
      | inr (x, e) ↦ rw (e, do_describe_portal) tt
      | inl (sql, e) ↦ elim (Option-cases (execute_statement client sql)) [
        | inl stuck ↦ rw (e, do_describe_portal) (rw stuck tt)
        | inr ((before, answer), ran) ↦ elim (Result-cases answer) [
          | inr (x, f) ↦ rw (e, do_describe_portal) (rw ran (rw f tt))
          | inl (responses, f) ↦ elim (Option-cases before.session) [
            | inl out ↦ rw (e, do_describe_portal) (rw ran (rw f (rw out tt)))
            | inr (s, login) ↦
                rw (e, do_describe_portal)
                  (rw ran (
                    rw f (
                      rw login (
                        sql,
                        before,
                        responses,
                        record before {
                          session = some (record s {
                            extended_results =
                                remove portal.name
                                  (insert portal.name (pop_or_empty responses) s.extended_results);
                          });
                        },
                        e,
                        ran ∙ ap (λ a. some (before, a)) f,
                        refl,
                        rw (
                          insert_same portal.name (pop_or_empty responses) s.extended_results,
                          execute_response,
                        ),
                        rw login,
                      ))))
          ]
        ]
      ]
    ]
