-- ===== src/Policy/Fuel.antt =====
-- The fuel of `parse_search_path_value`.
use exa_postgres_interface.Base.{
  ℕ, zero, suc, ◌≤◌, ◌<◌, Bool, true, false, not, ◌&&◌, ◌==◌, if◌then◌else◌, [], ◌∷◌, reverse,
  Bool-cases, Option-cases, inl, inr, Option, none, some, length, length-reverse, ◌≡◌, refl, ◌∙◌,
  subst, arith,
}
use exa_postgres_interface.Base.Text.{Text, trim, trim_start_while, is_whitespace, is_empty}
use exa_postgres_interface.Policy.SearchPath.{
  cons_if, comma_prefix, top_level_comma, search_path_on, search_path_entry,
  parse_search_path_value, SearchPathTarget,
}

abbrev IsShorter : Option Text → ℕ → Type 0
IsShorter none n = Unit
IsShorter (some p) n = length p < n

cons_if-IsShorter :
    (c : ℕ) (o : Option Text) (n : ℕ) → IsShorter o n → IsShorter (cons_if c o) (suc n)
cons_if-IsShorter c none n h = tt
cons_if-IsShorter c (some p) n h = omega arith

if-IsShorter :
    (b : Bool) (x y : Option Text) (n : ℕ)
    → IsShorter x n
    → IsShorter y n
    → IsShorter (if b then x else y) n
if-IsShorter true x y n hx hy = hx
if-IsShorter false x y n hx hy = hy

comma_prefix-IsShorter :
    (s : Text) (in_double in_single : Bool)
    → IsShorter (comma_prefix in_double in_single s) (length s)
comma_prefix-IsShorter [] in_double in_single = tt
comma_prefix-IsShorter (c ∷ []) in_double in_single =
    if-IsShorter (c == b',' && not in_double && not in_single) _ _ _ (omega arith) tt
comma_prefix-IsShorter (c ∷ d ∷ s) in_double in_single =
    let skipped =
      cons_if-IsShorter c _ _
        (cons_if-IsShorter d _ _ (comma_prefix-IsShorter s in_double in_single)) in
    let next : (a b : Bool)
        → IsShorter (cons_if c (comma_prefix a b (d ∷ s))) (length (c ∷ d ∷ s)) =
      λ a b. cons_if-IsShorter c _ _ (comma_prefix-IsShorter (d ∷ s) a b) in
    if-IsShorter (c == b'"' && not in_single) _ _ _
      (if-IsShorter (in_double && d == b'"') _ _ _ skipped (next (not in_double) in_single))
      (if-IsShorter (c == b'\'' && not in_double) _ _ _
        (if-IsShorter (in_single && d == b'\'') _ _ _ skipped (next in_double (not in_single)))
        (if-IsShorter (c == b',' && not in_double && not in_single) _ _ _ (omega arith)
          (next in_double in_single)))

length-trim_start_while : (p : ℕ → Bool) (s : Text) → length (trim_start_while p s) ≤ length s
length-trim_start_while p [] = omega arith
length-trim_start_while p (c ∷ s) = elim (Bool-cases (p c)) [
  | inl cut ↦ rw cut (omega (arith, length-trim_start_while p s))
  | inr kept ↦ rw kept (omega arith)
]

length-trim : (s : Text) → length (trim s) ≤ length s
unfolding trim
length-trim s =
    let t = trim_start_while is_whitespace s in
    omega (
      arith,
      length-trim_start_while is_whitespace s,
      length-reverse t,
      length-trim_start_while is_whitespace (reverse t),
      length-reverse (trim_start_while is_whitespace (reverse t)),
    )

search_path_on-agree :
    (m n : ℕ) (rhs : Text)
    → length rhs ≤ m
    → length rhs ≤ n
    → search_path_on m rhs ≡ search_path_on n rhs
unfolding search_path_on
search_path_on-agree zero zero rhs h g = refl
search_path_on-agree zero (suc n) [] h g = refl
search_path_on-agree zero (suc n) (c ∷ rhs) h g = absurd (omega arith)
search_path_on-agree (suc m) zero [] h g = refl
search_path_on-agree (suc m) zero (c ∷ rhs) h g = absurd (omega arith)
search_path_on-agree (suc m) (suc n) rhs h g = elim (Bool-cases (is_empty (trim rhs))) [
  | inl blank ↦ rw (blank, search_path_on)
  | inr kept ↦ elim (Option-cases (top_level_comma (trim rhs))) [
    | inl e ↦ rw (kept, search_path_on) (rw e)
    | inr (before, e) ↦
        let short : length before < length (trim rhs) =
          subst (λ o. IsShorter o (length (trim rhs))) e
            (unfold top_level_comma in comma_prefix-IsShorter (trim rhs) false false) in
        rw (kept, search_path_on)
          (rw e (
            search_path_on-agree m n before (omega (arith, short, length-trim rhs))
              (omega (arith, short, length-trim rhs))))
  ]
]

-- The meaning of a search_path value obeys the source's equation, without fuel: nothing is invalid,
-- a value with a comma outside quotes means what the part before the first such comma means, and
-- any other is a single entry.
pub parse_search_path_value_lem :
    (rhs : Text)
    → parse_search_path_value rhs ≡ (
        if is_empty (trim rhs)
        then SearchPathTarget.invalid
        else elim (top_level_comma (trim rhs)) [
          | none ↦ search_path_entry (trim rhs)
          | some before ↦ parse_search_path_value before
        ])
unfolding parse_search_path_value
parse_search_path_value_lem rhs = elim (Bool-cases (is_empty (trim rhs))) [
  | inl blank ↦
      search_path_on-agree (length rhs) (suc (length rhs)) rhs (omega arith) (omega arith)
      ∙ (unfold search_path_on in rw blank)
  | inr kept ↦ elim (Option-cases (top_level_comma (trim rhs))) [
    | inl e ↦
        search_path_on-agree (length rhs) (suc (length rhs)) rhs (omega arith) (omega arith)
        ∙ (unfold search_path_on in rw kept (rw e))
    | inr (before, e) ↦
        let short : length before < length (trim rhs) =
          subst (λ o. IsShorter o (length (trim rhs))) e
            (unfold top_level_comma in comma_prefix-IsShorter (trim rhs) false false) in
        search_path_on-agree (length rhs) (suc (length rhs)) rhs (omega arith) (omega arith)
        ∙ (unfold search_path_on in
            rw kept (
              rw e (
                search_path_on-agree (length rhs) (length before) before
                  (omega (arith, short, length-trim rhs)) (omega arith))))
  ]
]
