-- ===== src/Session/Literals.antt =====
-- A value rendered as a string literal cannot be read as anything else.
use exa_postgres_interface.Base.{
  Bool, true, false, not, ◌==◌, if◌then◌else◌, [], ◌∷◌, ◌++◌, append_assoc, ==_iff, Bool-cases, inl,
  inr, Option, none, some, ◌≢◌, ◌≡◌, refl, sym, ap, ◌∙◌, ℕ, arith,
}
use exa_postgres_interface.Base.Text.{Text, codes, replace_char}
use exa_postgres_interface.Session.Simple.{sql_string_literal}

abbrev pub quote : ℕ
quote = b'\''

-- How SQL reads a string literal behind its opening quote: a doubled quote stands for a quote, a
-- lone one ends it. The value and the text behind the literal.
abbrev cons_value : ℕ → Option (Text × Text) → Option (Text × Text)
cons_value c none = none
cons_value c (some (value, rest)) = some (c ∷ value, rest)

abbrev read_value : Text → Option (Text × Text)
read_value [] = none
read_value (c ∷ []) = if c == quote then some ([], []) else none
read_value (c ∷ d ∷ s) =
    let doubled = cons_value quote (read_value s) in
    let other = cons_value c (read_value (d ∷ s)) in
    if c == quote then (if d == quote then doubled else some ([], d ∷ s)) else other

abbrev pub read_literal : Text → Option (Text × Text)
read_literal [] = none
read_literal (c ∷ s) = if c == quote then read_value s else none

-- The text does not go on with a quote.
abbrev pub no_quote : Text → Bool
no_quote [] = true
no_quote (c ∷ s) = not (c == quote)

abbrev pub body : Text → Text
body value = replace_char quote (quote ∷ quote ∷ []) value

read_value_plain :
    (c : ℕ) (s : Text)
    → (c == quote) ≡ false
    → s ≢ []
    → read_value (c ∷ s) ≡ cons_value c (read_value s)
read_value_plain c [] h ne = absurd (ne refl)
read_value_plain c (d ∷ s) h ne = rw h

read_value_end : (rest : Text) → no_quote rest ≡ true → read_value (quote ∷ rest) ≡ some ([], rest)
read_value_end [] h = refl
read_value_end (d ∷ rest) h = elim (Bool-cases (d == quote)) [
  | inl q ↦ absurd (ground (arith, h, q))
  | inr q ↦ rw q
]

tail_not_nil : (s rest : Text) → body s ++ (quote ∷ rest) ≢ []
unfolding replace_char
tail_not_nil [] rest e = absurd (ground (arith, e))
tail_not_nil (c ∷ s) rest e = elim (Bool-cases (c == quote)) [
  | inl q ↦ absurd (ground (arith, e, q))
  | inr q ↦ absurd (ground (arith, e, q))
]

read_value-body :
    (value rest : Text)
    → no_quote rest ≡ true
    → read_value (body value ++ (quote ∷ rest)) ≡ some (value, rest)
unfolding replace_char
read_value-body [] rest h = read_value_end rest h
read_value-body (c ∷ value) rest h = elim (Bool-cases (c == quote)) [
  | inl q ↦
      rw (q, replace_char)
        (ap (cons_value quote) (read_value-body value rest h)
          ∙ ap (λ x. some (x ∷ value, rest)) (sym ((==_iff c quote).0 q)))
  | inr q ↦
      rw (q, replace_char)
        (read_value_plain c _ q (tail_not_nil value rest)
          ∙ ap (cons_value c) (read_value-body value rest h))
]

-- Round trip: whatever the value, reading its literal by the rules of SQL gives the value back and
-- stops where the literal ends, if no quote follows.
pub read_literal-sql_string_literal :
    (value rest : Text)
    → no_quote rest ≡ true
    → read_literal (sql_string_literal value ++ rest) ≡ some (value, rest)
unfolding sql_string_literal
read_literal-sql_string_literal value rest h =
    rw (append_assoc (body value) (codes "'") rest) (read_value-body value rest h)
