-- ===== src/Policy/Regexes.antt =====
-- What the repository uses of the crate `regex`, which is not part of it: matching, the groups of the
-- leftmost match by their number or name, replacement of every match by a template, the matches in
-- turn, and `escape`.
use exa_postgres_interface.Base.{Bool, List, Option}
use exa_postgres_interface.Base.Text.{Text}

-- A match with the text between the one before it and it; group 0 is the whole match.
pub record Match : Type 0 where
  pub before : Text
  pub group : Text → Option Text

pub record Regexes : Type 0 where
  pub is_match : Text → Text → Bool
  pub captures : Text → Text → Option (Text → Option Text)
  pub replace_all : Text → Text → Text → Text
  -- The matches, which do not overlap, and the text behind the last.
  pub matches : Text → Text → List Match × Text
  pub escape : Text → Text
