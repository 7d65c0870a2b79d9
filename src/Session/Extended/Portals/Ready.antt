-- ===== src/Session/Extended/Portals/Ready.antt =====
-- The connection behind an Execute message.
use exa_postgres_interface.Base.{
  true, not, Option, none, some, Option-cases, Result-cases, Bool-cases, inl, inr, ◌≡◌, ◌||◌, arith,
  refl, ◌∙◌,
}
use exa_postgres_interface.Base.Text.{Text, text_eq}
use exa_postgres_interface.Crates.{Crates}
use exa_postgres_interface.Session.{Database, Client, Responses}
use exa_postgres_interface.Session.Extended.{Decoding}
use exa_postgres_interface.Session.Extended.Portals.{Encoding, execute_response}
use exa_postgres_interface.Session.Extended.Portals.Execute.{
  Wire, Executed, send_response, is_query, on_execute,
}

-- What pgwire says of `set_state` and of its store of portals.
pub record WireLaws {Q : Type 0} (wire : Wire Q) : Type 0 where
  pub ready : (w : wire.World) → wire.is_ready (wire.set_ready w) ≡ true
  pub still_ready :
      (w : wire.World) (name : Text) → wire.is_ready (wire.rm_portal w name) ≡ wire.is_ready w
  pub removed : (w : wire.World) (name : Text) → wire.get_portal (wire.rm_portal w name) name ≡ none

-- The portal of a message: the one that it names, or the default one.
abbrev pub portal_of : {Q : Type 0} → Wire Q → Option Text → Text
portal_of wire none = wire.default_name
portal_of wire (some name) = name

module _ {k : Crates} {db : Database k} {Q : Type 0} (wire : Wire Q) where
  -- A message that is served ends with a connection that is ready again, without the default portal
  -- if that was executed; one that comes too early or names no portal changes nothing.
  abbrev pub IsEnded : wire.World → Text → Option (Client db × wire.World × Executed) → Type 0
  IsEnded w name none = Unit {0}
  IsEnded w name (some (client, w', Executed.done)) =
      (wire.is_ready w' ≡ true)
      × (text_eq name wire.default_name ≡ true → wire.get_portal w' name ≡ none)
  IsEnded w name (some (client, w', Executed.not_ready_for_query)) = w' ≡ w
  IsEnded w name (some (client, w', Executed.portal_not_found _)) = w' ≡ w
  IsEnded w name (some (client, w', Executed.failed _)) = Unit {0}

named-IsEnded :
    {k : Crates} {db : Database k} (encoding : Encoding k) (d : Decoding)
    (execute_statement : Client db → Text → Option (Client db × Responses k))
    (wire : Wire encoding.QueryResponse)
    → WireLaws wire
    → (client : Client db) (w : wire.World) (name : Text)
    → IsEnded wire w name (on_execute encoding d execute_statement wire client w (some name))
unfolding on_execute
named-IsEnded encoding d execute_statement wire laws client w name =
    elim (Bool-cases (not (wire.is_ready w))) [
      | inl busy ↦ rw (busy, on_execute) refl
      | inr free ↦ elim (Option-cases (wire.get_portal w name)) [
        | inl absent ↦ rw (free, on_execute) (rw absent refl)
        | inr (portal, found) ↦
            elim (Option-cases (execute_response encoding d execute_statement client portal name)) [
              | inl stuck ↦ rw (free, on_execute) (rw found (rw stuck tt))
              | inr ((client', was_described, answer), ran) ↦ elim (Result-cases answer) [
                | inr (x, e) ↦ rw (free, on_execute) (rw found (rw ran (rw e tt)))
                | inl (response, e) ↦
                    elim (Result-cases (
                      (send_response wire (wire.set_in_progress w) response
                        (not (is_query response) || not was_described)).1)) [
                          | inr (x, f) ↦ rw (free, on_execute) (rw found (rw ran (rw e (rw f tt))))
                          | inl (sent, f) ↦ elim (Bool-cases (text_eq name wire.default_name)) [
                            | inl same ↦
                                rw (free, on_execute)
                                  (rw found (
                                    rw ran (
                                      rw e (
                                        rw f (
                                          rw same (
                                            laws.still_ready _ name ∙ laws.ready _,
                                            λ _. laws.removed _ name,
                                          ))))))
                            | inr other ↦
                                rw (free, on_execute)
                                  (rw found (
                                    rw ran (
                                      rw e (
                                        rw f (
                                          rw other (
                                            laws.ready _,
                                            λ same. absurd (ground (arith, same)),
                                          ))))))
                          ]
                        ]
              ]
            ]
      ]
    ]

-- An Execute message that is served, for the portal that it names or, without a name, for the default
-- portal, leaves the connection ready for the next query, and the default portal is gone if it was the
-- one; a message that comes while a query is in progress, or for a portal that is not there, leaves the
-- connection as it was.
pub on_execute-IsEnded :
    {k : Crates} {db : Database k} (encoding : Encoding k) (d : Decoding)
    (execute_statement : Client db → Text → Option (Client db × Responses k))
    (wire : Wire encoding.QueryResponse)
    → WireLaws wire
    → (client : Client db) (w : wire.World) (message_name : Option Text)
    → IsEnded wire w
        (portal_of wire message_name)
        (on_execute encoding d execute_statement wire client w message_name)
unfolding on_execute
on_execute-IsEnded encoding d execute_statement wire laws client w none =
    named-IsEnded encoding d execute_statement wire laws client w wire.default_name
on_execute-IsEnded encoding d execute_statement wire laws client w (some name) =
    named-IsEnded encoding d execute_statement wire laws client w name
