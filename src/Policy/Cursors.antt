-- ===== src/Policy/Cursors.antt =====
-- DECLARE, FETCH, MOVE and CLOSE.
use exa_postgres_interface.Base.{
  Bool, false, not, ◌&&◌, ◌||◌, if◌then◌else◌, List, [], ◌∷◌, ◌++◌, reverse, Option, none, some,
  any,
}
use exa_postgres_interface.Base.Int.{ℤ, pos, ltb_ℤ, neg_i64}
use exa_postgres_interface.Base.Text.{
  Text, codes, text_eq, trim, contains, eq_ignore_ascii_case, to_ascii_uppercase, split_whitespace,
  parse_i64,
}
use exa_postgres_interface.Policy.Plan.{
  CursorDirection, CursorPosition, CursorClose, CursorPlan, StatementPlan,
}
use exa_postgres_interface.Policy.Regexes.{Regexes}
use exa_postgres_interface.Policy.Words.{
  unquote_identifier, unwrap_or_default, reject, unsupported_policy, is_one_of,
}

abbrev map_option : (ℤ → CursorDirection) → Option ℤ → Option CursorDirection
map_option f none = none
map_option f (some z) = some (f z)

-- A count below zero turns the direction around.
abbrev forward_or_back : ℤ → CursorDirection
forward_or_back count =
    if ltb_ℤ count (pos 0)
    then CursorDirection.backward (some (neg_i64 count))
    else CursorDirection.forward (some count)

abbrev back_or_forward : ℤ → CursorDirection
back_or_forward count =
    if ltb_ℤ count (pos 0)
    then CursorDirection.forward (some (neg_i64 count))
    else CursorDirection.backward (some count)

unfoldable pub parse_cursor_direction : List Text → Option CursorDirection
unfolding eq_ignore_ascii_case parse_i64 neg_i64
parse_cursor_direction [] = some CursorDirection.next
parse_cursor_direction (one ∷ []) =
    if eq_ignore_ascii_case one (codes "NEXT")
    then some CursorDirection.next
    else if eq_ignore_ascii_case one (codes "PRIOR")
    then some CursorDirection.prior
    else if eq_ignore_ascii_case one (codes "FIRST")
    then some CursorDirection.first
    else if eq_ignore_ascii_case one (codes "LAST")
    then some CursorDirection.last
    else if eq_ignore_ascii_case one (codes "ALL")
    then some CursorDirection.all
    else if eq_ignore_ascii_case one (codes "FORWARD")
    then some (CursorDirection.forward (some (pos 1)))
    else if eq_ignore_ascii_case one (codes "BACKWARD")
    then some (CursorDirection.backward (some (pos 1)))
    else map_option CursorDirection.count (parse_i64 one)
parse_cursor_direction (keyword ∷ value ∷ []) =
    if eq_ignore_ascii_case keyword (codes "ABSOLUTE")
    then map_option CursorDirection.absolute (parse_i64 value)
    else if eq_ignore_ascii_case keyword (codes "RELATIVE")
    then map_option CursorDirection.relative (parse_i64 value)
    else if eq_ignore_ascii_case keyword (codes "FORWARD")
    then (if eq_ignore_ascii_case value (codes "ALL")
        then some (CursorDirection.forward none)
        else map_option forward_or_back (parse_i64 value))
    else if eq_ignore_ascii_case keyword (codes "BACKWARD")
    then (if eq_ignore_ascii_case value (codes "ALL")
        then some (CursorDirection.backward none)
        else map_option back_or_forward (parse_i64 value))
    else none
parse_cursor_direction (a ∷ b ∷ c ∷ s) = none

-- The tokens behind the command, last one first, as the direction's and the name.
unfoldable pub split_direction : List Text → Option (List Text × Text)
unfolding to_ascii_uppercase
split_direction [] = none
split_direction (name ∷ []) = some ([], name)
split_direction (name ∷ word ∷ s) =
    some (reverse (if is_one_of (to_ascii_uppercase word) "FROM IN" then s else word ∷ s), name)

unfoldable pub parse_cursor_position : Text → Text → Option CursorPosition
unfolding split_whitespace to_ascii_uppercase split_direction parse_cursor_direction
    unquote_identifier
parse_cursor_position command sql = elim (split_whitespace sql) [
  | [] ↦ none
  | keyword ∷ tokens ↦
      if not (text_eq (to_ascii_uppercase keyword) command)
      then none
      else elim (split_direction (reverse tokens)) [
        | none ↦ none
        | some (direction_tokens, name) ↦ elim (parse_cursor_direction direction_tokens) [
          | none ↦ none
          | some direction ↦ some (record { name = unquote_identifier name; direction = direction })
        ]
      ]
]

-- `classify_cursor_position` for FETCH and for MOVE, its two callers.
unfoldable pub classify_cursor_position :
    Text → (CursorPosition → CursorPlan) → Text → StatementPlan
unfolding parse_cursor_position
classify_cursor_position command plan sql = elim (parse_cursor_position command sql) [
  | none ↦ reject "42601" (codes "unsupported " ++ command ++ codes " cursor syntax")
  | some position ↦ StatementPlan.cursor (plan position)
]

abbrev pub close_token : List Text → StatementPlan
close_token (a ∷ b ∷ []) = StatementPlan.cursor (
    CursorPlan.close (
      if eq_ignore_ascii_case b (codes "ALL")
      then CursorClose.every
      else CursorClose.one (unquote_identifier b)))
close_token [] = reject "42601" (codes "unsupported CLOSE cursor syntax")
close_token (a ∷ []) = reject "42601" (codes "unsupported CLOSE cursor syntax")
close_token (a ∷ b ∷ c ∷ s) = reject "42601" (codes "unsupported CLOSE cursor syntax")

unfoldable pub classify_close_cursor : Text → StatementPlan
unfolding split_whitespace eq_ignore_ascii_case unquote_identifier
classify_close_cursor sql = close_token (split_whitespace sql)

abbrev pub declare_cursor_re : Text
declare_cursor_re =
    codes
      "(?is)^DECLARE\\s+(?P<name>\"[^\"]+\"|[A-Za-z_][A-Za-z0-9_]*)\\s+(?P<options>(?:(?:BINARY|INSENSITIVE|ASENSITIVE|NO\\s+SCROLL|SCROLL)\\s+)*)CURSOR\\s*(?P<hold>WITH\\s+HOLD|WITHOUT\\s+HOLD)?\\s+FOR\\s+(?P<query>.+)$"

abbrev positioned_write_re : Text
positioned_write_re =
    codes
      "(?i)\\bFOR\\s+(UPDATE|SHARE|NO\\s+KEY\\s+UPDATE|KEY\\s+SHARE)\\b|\\bWHERE\\s+CURRENT\\s+OF\\b"

unfoldable pub contains_positioned_cursor_write : Regexes → Text → Bool
contains_positioned_cursor_write r query = r.is_match positioned_write_re query

-- The checks on a DECLARE whose parts are known: name, options in capitals, WITH HOLD, query.
unfoldable pub declare_plan : Regexes → Text → Text → Bool → Text → StatementPlan
unfolding split_whitespace contains unsupported_policy contains_positioned_cursor_write
declare_plan r name options hold query =
    if any (λ token. text_eq token (codes "BINARY")) (split_whitespace options)
    then unsupported_policy (codes "binary SQL cursors are not implemented")
    else if contains options (codes "INSENSITIVE") || contains options (codes "ASENSITIVE")
    then unsupported_policy (codes "cursor sensitivity options are not implemented")
    else if contains_positioned_cursor_write r query
    then unsupported_policy (
        codes "updatable cursors, FOR UPDATE, FOR SHARE, and positioned writes are not implemented")
    else StatementPlan.cursor (
        CursorPlan.declare (record {
          name = name;
          query = query;
          scroll = contains options (codes "SCROLL") && not (contains options (codes "NO SCROLL"));
          hold = hold;
        }))

unfoldable pub classify_declare_cursor : Regexes → Text → StatementPlan
unfolding unquote_identifier to_ascii_uppercase eq_ignore_ascii_case trim declare_plan
classify_declare_cursor r sql = elim (r.captures declare_cursor_re sql) [
  | none ↦
      reject "42601"
        (codes "unsupported DECLARE syntax; only SQL cursor declarations are supported")
  | some group ↦
      declare_plan r (unquote_identifier (unwrap_or_default (group (codes "name"))))
        (to_ascii_uppercase (unwrap_or_default (group (codes "options"))))
        (elim (group (codes "hold")) [
          | none ↦ false
          | some m ↦ eq_ignore_ascii_case m (codes "WITH HOLD")
        ])
        (trim (unwrap_or_default (group (codes "query"))))
]
