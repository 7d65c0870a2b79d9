-- ===== src/Policy/Quoting/Several.antt =====
-- Several schema names in SET search_path.
use exa_postgres_interface.Base.{
  ℕ, Bool, true, false, ◌==◌, [], ◌∷◌, ◌++◌, reverse, append_assoc, Bool-cases, inl, inr, some, ◌≢◌,
  ◌≡◌, refl, ap, ◌∙◌, arith,
}
use exa_postgres_interface.Base.Text.{
  Text, is_empty, trim, trim_start_while, replace_char, is_whitespace,
}
use exa_postgres_interface.Policy.SearchPath.{
  SearchPathTarget, comma_prefix, top_level_comma, parse_search_path_value,
}
use exa_postgres_interface.Policy.Fuel.{parse_search_path_value_lem}
use exa_postgres_interface.Policy.Quoting.{quoted, doubled, parse_search_path_value-quoted}
use mathlib.Core.List.{reverse-append, reverse-reverse, reverse-cons}

reverse_around : (s t : Text) (c : ℕ) → reverse (s ++ c ∷ t) ≡ reverse t ++ c ∷ reverse s
reverse_around s t c =
    reverse-append s (c ∷ t)
    ∙ ap (λ u. u ++ reverse s) (reverse-cons c t)
    ∙ append_assoc (reverse t) (c ∷ []) (reverse s)

trim_start_while_before :
    (p : ℕ → Bool) (s t : Text) (c : ℕ)
    → p c ≡ false
    → trim_start_while p (s ++ c ∷ t) ≡ trim_start_while p s ++ c ∷ t
trim_start_while_before p [] t c h = rw h refl
trim_start_while_before p (d ∷ s) t c h = elim (Bool-cases (p d)) [
  | inl cut ↦ rw cut (trim_start_while_before p s t c h)
  | inr kept ↦ rw kept refl
]

-- What the end of a text loses by `trim` behind a comma.
abbrev trimmed_end : Text → Text
trimmed_end s = reverse (trim_start_while is_whitespace (reverse s))

trim_behind :
    (first c : ℕ) (s rest : Text)
    → is_whitespace first ≡ false
    → is_whitespace c ≡ false
    → trim (first ∷ s ++ c ∷ rest) ≡ first ∷ s ++ c ∷ trimmed_end rest
unfolding trim
trim_behind first c s rest f h =
    let t = first ∷ s in
    rw (f, trim)
      (ap (λ u. reverse (trim_start_while is_whitespace u)) (reverse_around t rest c)
        ∙ ap reverse (trim_start_while_before is_whitespace (reverse rest) (reverse t) c h)
        ∙ reverse_around (trim_start_while is_whitespace (reverse rest)) (reverse t) c
        ∙ ap (λ u. u ++ c ∷ trimmed_end rest) (reverse-reverse t))

not_nil_before : (s t : Text) (c : ℕ) → s ++ c ∷ t ≢ []
not_nil_before [] t c e = absurd cc
not_nil_before (d ∷ s) t c e = absurd cc

kept_plain :
    (c : ℕ) (s u : Text)
    → (c == b'"') ≡ false
    → s ≢ []
    → comma_prefix true false s ≡ some u
    → comma_prefix true false (c ∷ s) ≡ some (c ∷ u)
kept_plain c [] u q ne h = absurd (ne refl)
kept_plain c (d ∷ s) u q ne h = ground (arith, q, h)

comma_prefix-doubled_comma :
    (name rest : Text)
    → comma_prefix true false (doubled name ++ b'"' ∷ b',' ∷ rest)
      ≡ some (doubled name ++ b'"' ∷ [])
unfolding replace_char
comma_prefix-doubled_comma [] [] = refl
comma_prefix-doubled_comma [] (d ∷ rest) = refl
comma_prefix-doubled_comma (c ∷ name) rest = elim (Bool-cases (c == b'"')) [
  | inl q ↦ rw (q, replace_char) (rw (comma_prefix-doubled_comma name rest))
  | inr q ↦
      rw (q, replace_char)
        (kept_plain c _ _ q (not_nil_before (doubled name) _ _)
          (comma_prefix-doubled_comma name rest))
]

opened :
    (s u : Text)
    → s ≢ []
    → comma_prefix true false s ≡ some u
    → comma_prefix false false (b'"' ∷ s) ≡ some (b'"' ∷ u)
opened [] u ne h = absurd (ne refl)
opened (d ∷ s) u ne h = rw h refl

top_level_comma-quoted_comma :
    (name rest : Text) → top_level_comma (quoted name ++ b',' ∷ rest) ≡ some (quoted name)
unfolding top_level_comma
top_level_comma-quoted_comma name rest =
    ap (comma_prefix false false)
      (ap (b'"' ∷◌) (append_assoc (doubled name) (b'"' ∷ []) (b',' ∷ rest)))
    ∙ opened _ _ (not_nil_before (doubled name) _ _) (comma_prefix-doubled_comma name rest)

-- The value of a SET search_path that begins with a schema name in double quotes and a comma means this
-- first schema alone, whatever the name, if it is not empty, and whatever stands behind the comma: more
-- than one schema is not refused.
pub parse_search_path_value-first :
    (name rest : Text)
    → is_empty name ≡ false
    → parse_search_path_value (quoted name ++ b',' ∷ rest) ≡ SearchPathTarget.single name
unfolding is_whitespace
parse_search_path_value-first name rest h =
    let e : trim (quoted name ++ b',' ∷ rest) ≡ quoted name ++ b',' ∷ trimmed_end rest =
      trim_behind b'"' b',' (doubled name ++ b'"' ∷ []) rest refl refl in
    parse_search_path_value_lem (quoted name ++ b',' ∷ rest)
    ∙ rw (e, top_level_comma-quoted_comma name (trimmed_end rest))
        (parse_search_path_value-quoted name h)
