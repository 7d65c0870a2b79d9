-- ===== src/Session/Extended.antt =====
-- The extended protocol: prepared statements, their parameters and portals.
pub mod Parameters
pub mod Binary
pub mod Portals
pub mod Answers
use exa_postgres_interface.Base.{
  ℕ, Bool, true, false, ◌≡◌, ltb, leb, List, [], ◌∷◌, ◌++◌, Option, none, some, if◌then◌else◌,
  Result, ok, err, length,
}
use exa_postgres_interface.Base.Text.{Text, codes}
use exa_postgres_interface.Cursor.{pg_error}
use exa_postgres_interface.Session.Simple.{split_simple_query}
use exa_postgres_interface.Session.Types.{PgType}

-- `StoredStatement` and `Portal` of the crate pgwire: the text of a statement, the types that the
-- client named, the values with their format, and how many values there are.
pub record StoredStatement : Type 0 where
  pub statement : Text
  pub parameter_types : List (Option PgType)

pub record Portal : Type 0 where
  pub name : Text
  pub statement : StoredStatement
  pub parameters : List (Option (List ℕ))
  pub parameter_len : ℕ
  pub is_binary : ℕ → Bool

-- What the parameters need of the crate regex and of `str`: the first groups of all matches, a test
-- that is `none` for a pattern that is no regular expression, `escape` and `from_utf8`.
pub record Decoding : Type 0 where
  pub captures_iter : Text → Text → List Text
  pub is_match : Text → Text → Option Bool
  pub escape : Text → Text
  pub from_utf8 : List ℕ → Option Text

-- `GatewayQueryParser::parse_sql`.
unfoldable pub parse_sql : Text → Result Text
unfolding split_simple_query
parse_sql sql =
    if ltb 1 (length (split_simple_query sql))
    then err (
        pg_error (codes "42601")
          (codes "extended query protocol accepts one statement per Parse message"))
    else ok sql
