-- ===== src/Exasol/Json.antt =====
-- What src/exasol and src/pg_server.rs use of the crate serde_json, which is not part of the
-- repository: the shape of a `Value`, its members and numbers, and its print.
use exa_postgres_interface.Base.{ℕ, Bool, List, Option, none, some}
use exa_postgres_interface.Base.Int.{ℤ}
use exa_postgres_interface.Base.Text.{Text}

-- The variants of `Value`; a number is kept as its print.
pub data Kind (Value : Type 0) : Type 0 where
  null : Kind Value
  boolean : Bool → Kind Value
  number : Text → Kind Value
  string : Text → Kind Value
  array : List Value → Kind Value
  object : Kind Value

pub record Json (Value : Type 0) : Type 0 where
  pub kind : Value → Kind Value
  pub render : Value → Text
  pub get : Value → Text → Option Value
  pub pointer : Value → Text → Option Value
  pub as_u64 : Value → Option ℕ
  pub as_i64 : Value → Option ℤ
  pub null_value : Value
  pub parse : Text → Option Value
  -- The requests of the transport, printed; those of log-in are in Login.
  pub execute_request : Text → Text
  pub fetch_request : ℕ → ℕ → ℕ → Text

module _ {Value : Type 0} (j : Json Value) where
  abbrev pub as_str : Value → Option Text
  as_str v = elim (j.kind v) [ Kind.string s ↦ some s | _ ↦ none ]

  abbrev pub as_array : Value → Option (List Value)
  as_array v = elim (j.kind v) [ Kind.array vs ↦ some vs | _ ↦ none ]

  -- `value.get(key).and_then(f)`
  abbrev pub member {ℓ} : {A : Type ℓ} → Value → Text → (Value → Option A) → Option A
  member v key f = elim (j.get v key) [ none ↦ none | some w ↦ f w ]
