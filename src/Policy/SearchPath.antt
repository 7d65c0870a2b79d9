-- ===== src/Policy/SearchPath.antt =====
-- `parse_search_path_value`: the one schema that a SET search_path names.
use exa_postgres_interface.Base.{
  ℕ, zero, suc, Bool, false, not, ◌&&◌, ◌==◌, if◌then◌else◌, [], ◌∷◌, reverse, Option, none, some,
  length,
}
use exa_postgres_interface.Base.Text.{Text, codes, is_empty, trim, eq_ignore_ascii_case, undouble}

pub data SearchPathTarget : Type 0 where
  single : Text → SearchPathTarget
  default invalid : SearchPathTarget

abbrev pub cons_if : ℕ → Option Text → Option Text
cons_if c none = none
cons_if c (some s) = some (c ∷ s)

-- The text before the first comma outside the quotes: what `top_level_comma_index` cuts off. The two
-- flags are `in_double` and `in_single`; a doubled quote inside quotes of its kind is skipped.
abbrev pub comma_prefix : Bool → Bool → Text → Option Text
comma_prefix in_double in_single [] = none
comma_prefix in_double in_single (c ∷ []) =
    if c == b',' && not in_double && not in_single then some [] else none
comma_prefix in_double in_single (c ∷ d ∷ s) =
    let skipped = cons_if c (cons_if d (comma_prefix in_double in_single s)) in
    let toggled_double = cons_if c (comma_prefix (not in_double) in_single (d ∷ s)) in
    let toggled_single = cons_if c (comma_prefix in_double (not in_single) (d ∷ s)) in
    let kept = cons_if c (comma_prefix in_double in_single (d ∷ s)) in
    if c == b'"' && not in_single
    then (if in_double && d == b'"' then skipped else toggled_double)
    else if c == b'\'' && not in_double
    then (if in_single && d == b'\'' then skipped else toggled_single)
    else if c == b',' && not in_double && not in_single
    then some []
    else kept

unfoldable pub top_level_comma : Text → Option Text
top_level_comma value = comma_prefix false false value

abbrev last_of : Text → Option (Text × ℕ)
last_of s = elim (reverse s) [ [] ↦ none | c ∷ t ↦ some (reverse t, c) ]

unfoldable pub strip_enclosing : Text → ℕ → ℕ → Option Text
strip_enclosing [] opening closing = none
strip_enclosing (first ∷ rest) opening closing = elim (last_of rest) [
  | none ↦ none
  | some (inner, last) ↦ if first == opening && last == closing then some inner else none
]

-- A value without a top-level comma.
unfoldable pub search_path_entry : Text → SearchPathTarget
unfolding strip_enclosing
search_path_entry trimmed =
    if eq_ignore_ascii_case trimmed (codes "DEFAULT")
    then SearchPathTarget.default
    else elim (strip_enclosing trimmed b'"' b'"') [
      | some inner ↦
          let unescaped = undouble b'"' inner in
          if is_empty unescaped then SearchPathTarget.invalid else SearchPathTarget.single unescaped
      | none ↦ elim (strip_enclosing trimmed b'\'' b'\'') [
        | some inner ↦
            if is_empty inner then SearchPathTarget.invalid else SearchPathTarget.single inner
        | none ↦ SearchPathTarget.single trimmed
      ]
    ]

-- The call on the part before a comma is on a shorter text, so the length of the text is enough fuel:
-- with none left the text is empty.
unfoldable pub search_path_on : ℕ → Text → SearchPathTarget
unfolding trim top_level_comma
search_path_on zero rhs = SearchPathTarget.invalid
search_path_on (suc fuel) rhs =
    let trimmed = trim rhs in
    if is_empty trimmed then SearchPathTarget.invalid else elim (top_level_comma trimmed) [
      | some before ↦ search_path_on fuel before
      | none ↦ search_path_entry trimmed
    ]

unfoldable pub parse_search_path_value : Text → SearchPathTarget
unfolding search_path_on
parse_search_path_value rhs = search_path_on (length rhs) rhs
