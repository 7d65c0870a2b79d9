-- ===== src/Policy/Words.antt =====
-- Words of a statement and the refusals of src/policy.rs.
use exa_postgres_interface.Base.{
  ℕ, Bool, not, ◌||◌, ◌&&◌, ◌==◌, leb, if◌then◌else◌, List, [], ◌∷◌, ◌++◌, Option, none, some, any,
  drop,
}
use exa_postgres_interface.Base.Text.{
  Text, codes, text_eq, trim, trim_while, trim_start_while, trim_end_while, to_ascii_uppercase,
  split_whitespace, undouble, is_ascii_digit,
}
use exa_postgres_interface.Policy.Plan.{StatementPlan, RowCountPolicy}
use exa_postgres_interface.Policy.Regexes.{Regexes}
use Prim.Native.String.{String}

-- A match of a word against the alternatives of a pattern, here parted by blanks.
abbrev pub is_one_of : Text → String → Bool
is_one_of word alternatives = any (text_eq word) (split_whitespace (codes alternatives))

abbrev pub unwrap_or_default : Option Text → Text
unwrap_or_default none = []
unwrap_or_default (some s) = s

abbrev second : List Text → Option Text
second [] = none
second (a ∷ []) = none
second (a ∷ b ∷ s) = some b

abbrev third : List Text → Option Text
third [] = none
third (a ∷ s) = second s

abbrev pub first : List Text → Option Text
first [] = none
first (a ∷ s) = some a

unfoldable pub unquote_identifier : Text → Text
unfolding trim
unquote_identifier identifier =
    undouble b'"' (trim_while (λ c. c == b'"') (trim_end_while (λ c. c == b';') (trim identifier)))

unfoldable pub first_keyword : Text → Text
unfolding split_whitespace to_ascii_uppercase
first_keyword sql =
    to_ascii_uppercase
      (trim_start_while (λ c. c == b'(') (unwrap_or_default (first (split_whitespace sql))))

abbrev is_ascii_alphanumeric : ℕ → Bool
is_ascii_alphanumeric c =
    is_ascii_digit c || (leb b'a' c && leb c b'z') || (leb b'A' c && leb c b'Z')

unfoldable word_core : Text → Text
unfolding to_ascii_uppercase
word_core token =
    to_ascii_uppercase (trim_while (λ c. not (is_ascii_alphanumeric c) && not (c == b'_')) token)

abbrev map_or_default : (Text → Text) → Option Text → Text
map_or_default f none = []
map_or_default f (some s) = f s

-- The second word, or the one behind OR REPLACE.
unfoldable pub second_keyword : Text → Text
unfolding split_whitespace word_core
second_keyword sql =
    let tokens = drop 1 (split_whitespace sql) in
    let one = map_or_default word_core (first tokens) in
    if text_eq one (codes "OR")
      && text_eq (map_or_default word_core (second tokens)) (codes "REPLACE")
    then map_or_default word_core (third tokens)
    else one

abbrev pub execute : String → RowCountPolicy → StatementPlan
execute command row_count = StatementPlan.execute (codes command) row_count

abbrev pub reject : String → Text → StatementPlan
reject sqlstate message = StatementPlan.reject (codes sqlstate) message

unfoldable pub unsupported_policy : Text → StatementPlan
unsupported_policy message = reject "0A000" (codes "unsupported by gateway policy: " ++ message)

unfoldable pub unsupported_no_equivalent : Text → StatementPlan
unsupported_no_equivalent message =
    reject "0A000" (codes "unsupported because no Exasol equivalent is available: " ++ message)

abbrev pub comment_re : Text
comment_re = codes "(?s)/\\*.*?\\*/|--[^\\n\\r]*"

unfoldable pub normalize_sql : Regexes → Text → Text
unfolding trim
normalize_sql r sql =
    trim (trim_end_while (λ c. c == b';') (trim (r.replace_all comment_re sql (codes " "))))
