-- ===== src/Session/Splitting.antt =====
-- `split_simple_query` on queries with string literals, and the statements it makes.
use exa_postgres_interface.Base.{
  not, ◌&&◌, All-reverse, All, Bool, ℕ, true, false, ◌==◌, List, [], ◌∷◌, ◌++◌, reverse,
  append_assoc, Bool-cases, inl, inr, ◌≢◌, ◌≡◌, refl, sym, ap, ◌∙◌, arith,
}
use mathlib.Core.List.{reverse-cons}
use exa_postgres_interface.Base.Text.{Text, codes, replace_char, is_empty, trim}
use exa_postgres_interface.Session.Simple.{
  split_simple_query, push_statement, split_from, sql_string_literal,
}
use exa_postgres_interface.Session.Literals.{no_quote, quote, body}

-- The loop's `current` behind a piece of text.
abbrev onto : Text → Text → Text
onto [] current = current
onto (c ∷ s) current = onto s (c ∷ current)

onto_lem : (s current : Text) → onto s current ≡ reverse s ++ current
onto_lem [] current = refl
onto_lem (c ∷ s) current =
    onto_lem s (c ∷ current)
    ∙ sym (append_assoc (reverse s) (c ∷ []) current)
    ∙ ap (λ r. r ++ current) (sym (reverse-cons c s))

-- A character of a literal that is no quote.
split_plain :
    (statements : List Text) (current : Text) (c : ℕ) (s : Text)
    → (c == quote) ≡ false
    → split_from statements current true false (c ∷ s)
      ≡ split_from statements (c ∷ current) true false s
unfolding split_from
split_plain statements current c [] h = ground arith
split_plain statements current c (d ∷ s) h = ground arith

split_doubled :
    (statements : List Text) (current s : Text)
    → split_from statements current true false (quote ∷ quote ∷ s)
      ≡ split_from statements (quote ∷ quote ∷ current) true false s
unfolding split_from
split_doubled statements current s = refl

split_close :
    (statements : List Text) (current rest : Text)
    → no_quote rest ≡ true
    → split_from statements current true false (quote ∷ rest)
      ≡ split_from statements (quote ∷ current) false false rest
unfolding split_from
split_close statements current [] h = refl
split_close statements current (d ∷ rest) h = elim (Bool-cases (d == quote)) [
  | inl q ↦ absurd (ground (arith, h, q))
  | inr q ↦ rw (q, split_from)
]

split_body :
    (statements : List Text) (current value rest : Text)
    → no_quote rest ≡ true
    → split_from statements current true false (body value ++ (quote ∷ rest))
      ≡ split_from statements (quote ∷ onto (body value) current) false false rest
unfolding replace_char
split_body statements current [] rest h = split_close statements current rest h
split_body statements current (c ∷ value) rest h = elim (Bool-cases (c == quote)) [
  | inl q ↦
      rw (q, replace_char)
        (split_doubled statements current _
          ∙ split_body statements (quote ∷ quote ∷ current) value rest h)
  | inr q ↦
      rw (q, replace_char)
        (split_plain statements current c _ q ∙ split_body statements (c ∷ current) value rest h)
]

split_opening :
    (statements : List Text) (current s : Text)
    → s ≢ []
    → split_from statements current false false (quote ∷ s)
      ≡ split_from statements (quote ∷ current) true false s
unfolding split_from
split_opening statements current [] h = absurd (h refl)
split_opening statements current (d ∷ s) h = refl

onto_close : (s : Text) (current : Text) → onto (s ++ (quote ∷ [])) current ≡ quote ∷ onto s current
onto_close [] current = refl
onto_close (c ∷ s) current = onto_close s (c ∷ current)

not_nil : (s rest : Text) → s ++ (quote ∷ rest) ≢ []
not_nil [] rest e = absurd (ground (arith, e))
not_nil (c ∷ s) rest e = absurd (ground (arith, e))

-- Between statements the splitter passes over the literal of any value as one piece, if no quote
-- follows: no semicolon or quote in the value ends the statement or leaves the splitter in quotes.
pub split_from-sql_string_literal :
    (statements : List Text) (current value rest : Text)
    → no_quote rest ≡ true
    → split_from statements current false false (sql_string_literal value ++ rest)
      ≡ split_from statements (reverse (sql_string_literal value) ++ current) false false rest
unfolding sql_string_literal
split_from-sql_string_literal statements current value rest h =
    rw (append_assoc (body value) (codes "'") rest) (
      split_opening statements current _ (not_nil (body value) rest)
      ∙ split_body statements (quote ∷ current) value rest h
      ∙ ap (λ r. split_from statements r false false rest)
          (sym (onto_close (body value) (quote ∷ current))
            ∙ onto_lem (sql_string_literal value) current))

-- Not blank, and trimmed.
abbrev pub IsStatement : Text → Type 0
IsStatement s = (t : Text) × (s ≡ trim t) × (is_empty s ≡ false)

push_statement-All :
    (statements : List Text) (current : Text)
    → All IsStatement statements
    → All IsStatement (push_statement statements current)
unfolding push_statement
push_statement-All statements current h =
    let t = reverse current in
    elim (Bool-cases (is_empty (trim t))) [
      | inl blank ↦ rw (blank, push_statement) h
      | inr kept ↦ rw (kept, push_statement) ((t, refl, kept), h)
    ]

split_from-All :
    (s : Text) (statements : List Text) (current : Text) (in_single in_double : Bool)
    → All IsStatement statements
    → All IsStatement (split_from statements current in_single in_double s)
unfolding split_from
split_from-All [] statements current in_single in_double h =
    All-reverse IsStatement _ (push_statement-All statements current h)
split_from-All (ch ∷ []) statements current in_single in_double h =
    elim (Bool-cases (ch == b';' && not in_single && not in_double)) [
      | inl ends ↦
          rw (ends, split_from)
            (All-reverse IsStatement _
              (push_statement-All _ [] (push_statement-All statements current h)))
      | inr goes_on ↦
          rw (goes_on, split_from)
            (All-reverse IsStatement _ (push_statement-All statements (ch ∷ current) h))
    ]
split_from-All (ch ∷ d ∷ s) statements current in_single in_double h =
    let skipped = split_from-All s statements (d ∷ ch ∷ current) in_single in_double h in
    elim (Bool-cases (ch == b'\'' && not in_double && in_single && d == b'\'')) [
      | inl two ↦ rw (two, split_from) skipped
      | inr one ↦ elim (Bool-cases (ch == b';' && not in_single && not in_double)) [
        | inl ends ↦
            rw (one, split_from)
              (rw ends (split_from-All (d ∷ s) _ [] _ _ (push_statement-All statements current h)))
        | inr goes_on ↦
            rw (one, split_from)
              (rw goes_on (split_from-All (d ∷ s) statements (ch ∷ current) _ _ h))
      ]
    ]

-- Every statement that a query is split into is trimmed and not blank.
split_simple_query-All : (query : Text) → All IsStatement (split_simple_query query)
unfolding split_simple_query
split_simple_query-All query = split_from-All query [] [] false false tt
