-- ===== src/Session/Extended/Parameters/Filling.antt =====
-- A statement with its placeholders filled: what `render_portal_sql` makes of it.
use exa_postgres_interface.Base.{
  ℕ, zero, suc, ◌+◌, ◌≤◌, ◌<◌, leb, true, false, Bool-cases, inl, inr, List, [], ◌∷◌, ◌++◌,
  if◌then◌else◌, Result, ok, ◌≡◌, refl, sym, ap, ◌∙◌, arith,
}
use exa_postgres_interface.Base.Text.{Text, is_ascii_digit, replace, replace_from}
use exa_postgres_interface.Session.Extended.{Portal, Decoding}
use exa_postgres_interface.Session.Extended.Parameters.{
  placeholder, render_from, render_portal_parameter, render_portal_sql,
}
use exa_postgres_interface.Session.Extended.Parameters.Replacing.{
  IsPlain, no_digit, replace_from-same, replace_from-smaller, replace_from-IsPlain,
}

-- The numbers of the placeholders of a statement, each with the text behind it.
abbrev pub Pieces : Type 0
Pieces = List (ℕ × Text)

-- The pieces with something for each placeholder.
abbrev pub fill : (ℕ → Text) → Pieces → Text
fill ρ [] = []
fill ρ ((n, c) ∷ ps) = ρ n ++ (c ++ fill ρ ps)

-- Something other than a digit stands behind each placeholder, if it is not the end of the statement.
abbrev IsSeparated : Text → Pieces → Type 0
IsSeparated [] [] = Unit {0}
IsSeparated [] (p ∷ ps) = false ≡ true
IsSeparated (c ∷ s) ps = is_ascii_digit c ≡ false

-- The pieces of a statement with placeholders from 1 up to `len`, and no other dollar sign.
abbrev pub IsTemplate : ℕ → Pieces → Type 0
IsTemplate len [] = Unit {0}
IsTemplate len ((n, c) ∷ ps) =
    (0 < n) × (n ≤ len) × IsPlain c × IsSeparated c ps × IsTemplate len ps

separated-no_digit :
    (ρ : ℕ → Text) (c : Text) (ps : Pieces) → IsSeparated c ps → no_digit (c ++ fill ρ ps) ≡ true
separated-no_digit ρ [] [] h = refl
separated-no_digit ρ [] (p ∷ ps) h = absurd (ground (arith, h))
separated-no_digit ρ (d ∷ c) ps h = rw h

module _ (v : ℕ → Text) where
  -- The placeholders above `idx` are filled.
  above : ℕ → ℕ → Text
  above idx n = if leb n idx then placeholder n else v n

  above_low : (idx n : ℕ) → leb n idx ≡ true → above idx n ≡ placeholder n
  unfolding above
  above_low idx n h = rw h

  above_high : (idx n : ℕ) → leb n idx ≡ false → above idx n ≡ v n
  unfolding above
  above_high idx n h = rw h

  -- A round of the loop fills the placeholders of one number.
  replace_from-fill :
      (len idx : ℕ) (ps : Pieces)
      → ((n : ℕ) → 0 < n → n ≤ len → IsPlain (v n))
      → IsTemplate len ps
      → replace_from 0 (placeholder (suc idx)) (v (suc idx)) (fill (above (suc idx)) ps)
        ≡ fill (above idx) ps
  replace_from-fill len idx [] plain h = refl
  replace_from-fill len idx ((n, c) ∷ ps) plain (low, high, c_plain, apart, h) =
      let k = suc idx in
      let rest = c ++ fill (above k) ps in
      let later : replace_from 0 (placeholder k) (v k) rest ≡ c ++ fill (above idx) ps =
        replace_from-IsPlain k (v k) c (fill (above k) ps) c_plain
        ∙ ap (λ t. c ++ t) (replace_from-fill len idx ps plain h) in
      elim (Bool-cases (leb n idx)) [
        | inl below ↦ rw (above_low k n (ground (arith, below))) (
            rw (above_low idx n below) (
              replace_from-smaller k n (v k) rest (ground (arith, below))
                (separated-no_digit (above k) c ps apart)
              ∙ ap (λ t. placeholder n ++ t) later))
        | inr over ↦ elim (Bool-cases (leb n k)) [
          | inl here ↦
              let e : n ≡ k = ground (arith, over, here) in
              rw (above_low k n here) (
                rw (above_high idx n over)
                  (rw e (replace_from-same k (v k) rest ∙ ap (λ t. v k ++ t) later)))
          | inr filled ↦ rw (above_high k n filled) (
              rw (above_high idx n over) (
                replace_from-IsPlain k (v k) (v n) rest (plain n low high)
                ∙ ap (λ t. v n ++ t) later))
        ]
      ]

  fill-above_all :
      (len bound : ℕ) (ps : Pieces)
      → len ≤ bound
      → IsTemplate len ps
      → fill (above bound) ps ≡ fill placeholder ps
  fill-above_all len bound [] l h = refl
  fill-above_all len bound ((n, c) ∷ ps) l (low, high, c_plain, apart, h) =
      rw (above_low bound n (ground (arith, high, l)))
        (ap (λ t. placeholder n ++ (c ++ t)) (fill-above_all len bound ps l h))

  fill-above_none : (len : ℕ) (ps : Pieces) → IsTemplate len ps → fill (above 0) ps ≡ fill v ps
  fill-above_none len [] h = refl
  fill-above_none len ((n, c) ∷ ps) (low, high, c_plain, apart, h) =
      rw (above_high 0 n (ground (arith, low)))
        (ap (λ t. v n ++ (c ++ t)) (fill-above_none len ps h))

  render_from-above :
      (value : ℕ → Result Text) (len idx : ℕ) (first : Text) (ps : Pieces)
      → idx ≤ len
      → ((i : ℕ) → i < len → value i ≡ ok (v (suc i)))
      → ((n : ℕ) → 0 < n → n ≤ len → IsPlain (v n))
      → IsPlain first
      → IsTemplate len ps
      → render_from value idx (first ++ fill (above idx) ps) ≡ ok (first ++ fill (above 0) ps)
  unfolding render_from replace
  render_from-above value len zero first ps l given plain f h = refl
  render_from-above value len (suc idx) first ps l given plain f h =
      let k : idx + 1 ≡ suc idx = omega arith in
      rw (given idx l, render_from)
        (rw k (
          rw (replace_from-IsPlain (suc idx) (v (suc idx)) first (fill (above (suc idx)) ps) f) (
            rw (replace_from-fill len idx ps plain h)
              (render_from-above value len idx first ps (omega (arith, l)) given plain f h))))

-- The statement of a portal whose dollar signs are all those of placeholders, numbered from 1 up to the
-- number of the portal's parameters and written without leading zeros, each at the end of the statement
-- or with a text behind it that does not begin with a digit or with another placeholder; the values
-- of the parameters are rendered without an error and hold no dollar sign. Every placeholder is replaced
-- by the value of its number, all at once, and nothing else is changed: the placeholder $1 is never seen
-- in $10.
pub render_portal_sql-fill :
    (d : Decoding) (portal : Portal) (v : ℕ → Text) (first : Text) (ps : Pieces)
    → portal.statement.statement ≡ first ++ fill placeholder ps
    → ((i : ℕ) → i < portal.parameter_len → render_portal_parameter d portal i ≡ ok (v (suc i)))
    → ((n : ℕ) → 0 < n → n ≤ portal.parameter_len → IsPlain (v n))
    → IsPlain first
    → IsTemplate portal.parameter_len ps
    → render_portal_sql d portal ≡ ok (first ++ fill v ps)
unfolding render_portal_sql
render_portal_sql-fill d portal v first ps e given plain f h =
    let len = portal.parameter_len in
    let value = render_portal_parameter d portal in
    ap (λ s. render_from value len s)
      (e ∙ ap (λ t. first ++ t) (sym (fill-above_all v len len ps (omega arith) h)))
    ∙ render_from-above v value len len first ps (omega arith) given plain f h
    ∙ ap (λ t. ok (first ++ t)) (fill-above_none v len ps h)
