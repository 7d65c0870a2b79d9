-- ===== src/Session/Simple.antt =====
-- `split_simple_query`, and the literals that parameters are rendered as.
use exa_postgres_interface.Base.{
  Bool, false, not, ◌&&◌, ◌==◌, if◌then◌else◌, List, [], ◌∷◌, ◌++◌, reverse,
}
use exa_postgres_interface.Base.Text.{Text, codes, is_empty, trim, replace_char}

-- A statement that ends here, unless it is blank. Both lists are backwards.
unfoldable pub push_statement : List Text → Text → List Text
unfolding trim
push_statement statements current =
    let statement = trim (reverse current) in
    if is_empty statement then statements else statement ∷ statements

-- The loop: statements so far and the text since the last one, backwards, and the two flags. In
-- single quotes a doubled quote is skipped.
unfoldable pub split_from : List Text → Text → Bool → Bool → Text → List Text
unfolding push_statement
split_from statements current in_single in_double [] = reverse (push_statement statements current)
split_from statements current in_single in_double (ch ∷ []) =
    if ch == b';' && not in_single && not in_double
    then reverse (push_statement (push_statement statements current) [])
    else reverse (push_statement statements (ch ∷ current))
split_from statements current in_single in_double (ch ∷ d ∷ s) =
    let skipped = split_from statements (d ∷ ch ∷ current) in_single in_double s in
    let step =
      split_from
        (if ch == b';' && not in_single && not in_double
          then push_statement statements current
          else statements)
        (if ch == b';' && not in_single && not in_double then [] else ch ∷ current)
        (if ch == b'\'' && not in_double then not in_single else in_single)
        (if ch == b'"' && not in_single then not in_double else in_double) (d ∷ s) in
    if ch == b'\'' && not in_double && in_single && d == b'\'' then skipped else step

unfoldable pub split_simple_query : Text → List Text
unfolding split_from
split_simple_query query = split_from [] [] false false query

unfoldable pub sql_string_literal : Text → Text
unfolding replace_char
sql_string_literal value = codes "'" ++ replace_char b'\'' (codes "''") value ++ codes "'"
