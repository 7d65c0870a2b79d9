-- ===== src/Policy/Quoting.antt =====
-- A quoted schema name in SET search_path.
pub mod Several
use exa_postgres_interface.Base.{
  ℕ, true, false, ◌==◌, [], ◌∷◌, ◌++◌, reverse, Bool-cases, inl, inr, none, some, ◌≢◌, ◌≡◌, refl,
  ap, arith,
}
use exa_postgres_interface.Base.Text.{
  Text, codes, is_empty, trim, trim_while_of_ends, eq_ignore_ascii_case, to_ascii_lowercase,
  replace_char, undouble-replace_char, is_whitespace,
}
use exa_postgres_interface.Policy.SearchPath.{
  SearchPathTarget, comma_prefix, top_level_comma, strip_enclosing, search_path_entry,
  search_path_on, parse_search_path_value,
}
use mathlib.Core.List.{reverse-append, reverse-reverse}

abbrev double_quote : ℕ
double_quote = b'"'

abbrev pub doubled : Text → Text
doubled name = replace_char double_quote (double_quote ∷ double_quote ∷ []) name

-- An identifier in double quotes, with those inside doubled.
abbrev pub quoted : Text → Text
quoted name = double_quote ∷ (doubled name ++ double_quote ∷ [])

comma_plain :
    (c : ℕ) (s : Text)
    → (c == double_quote) ≡ false
    → s ≢ []
    → comma_prefix true false s ≡ none
    → comma_prefix true false (c ∷ s) ≡ none
comma_plain c [] q ne h = absurd (ne refl)
comma_plain c (d ∷ s) q ne h = ground (arith, q, h)

not_nil : (s : Text) (c : ℕ) → s ++ c ∷ [] ≢ []
not_nil [] c e = absurd (ground (arith, e))
not_nil (d ∷ s) c e = absurd (ground (arith, e))

comma_prefix-doubled :
    (name : Text) → comma_prefix true false (doubled name ++ double_quote ∷ []) ≡ none
unfolding replace_char
comma_prefix-doubled [] = refl
comma_prefix-doubled (c ∷ name) = elim (Bool-cases (c == double_quote)) [
  | inl q ↦ rw (q, replace_char) (rw (comma_prefix-doubled name))
  | inr q ↦
      rw (q, replace_char)
        (comma_plain c _ q (not_nil (doubled name) _) (comma_prefix-doubled name))
]

comma_opening :
    (s : Text)
    → s ≢ []
    → comma_prefix true false s ≡ none
    → comma_prefix false false (double_quote ∷ s) ≡ none
comma_opening [] ne h = absurd (ne refl)
comma_opening (d ∷ s) ne h = rw h

top_level_comma-quoted : (name : Text) → top_level_comma (quoted name) ≡ none
unfolding top_level_comma
top_level_comma-quoted name = comma_opening _ (not_nil (doubled name) _) (comma_prefix-doubled name)

strip_enclosing-quoted :
    (name : Text) → strip_enclosing (quoted name) double_quote double_quote ≡ some (doubled name)
unfolding strip_enclosing
strip_enclosing-quoted name =
    let e : reverse (doubled name ++ double_quote ∷ []) ≡ double_quote ∷ reverse (doubled name) =
      reverse-append (doubled name) (double_quote ∷ []) in
    rw (e, strip_enclosing) (ap some (reverse-reverse (doubled name)))

trim-quoted : (name : Text) → trim (quoted name) ≡ quoted name
unfolding trim is_whitespace
trim-quoted name =
    trim_while_of_ends is_whitespace double_quote double_quote (doubled name) refl refl

not_default : (name : Text) → eq_ignore_ascii_case (quoted name) (codes "DEFAULT") ≡ false
unfolding eq_ignore_ascii_case to_ascii_lowercase
not_default name = refl

search_path_entry-quoted :
    (name : Text)
    → is_empty name ≡ false
    → search_path_entry (quoted name) ≡ SearchPathTarget.single name
unfolding search_path_entry
search_path_entry-quoted name h =
    rw (not_default name, search_path_entry)
      (rw (strip_enclosing-quoted name) (rw (undouble-replace_char double_quote name) (rw h)))

-- `parse_search_path_value` reads a schema name in double quotes, with the quotes in it doubled, as that
-- schema, whatever the name, if it is not empty: commas, quotes, blanks and the word DEFAULT in it
-- have no meaning for it. What is done to the statement before its value is read is left aside.
pub parse_search_path_value-quoted :
    (name : Text)
    → is_empty name ≡ false
    → parse_search_path_value (quoted name) ≡ SearchPathTarget.single name
unfolding parse_search_path_value search_path_on
parse_search_path_value-quoted name h =
    rw (trim-quoted name, search_path_on)
      (rw (top_level_comma-quoted name) (rw (trim-quoted name) (search_path_entry-quoted name h)))
