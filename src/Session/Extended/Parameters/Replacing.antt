-- ===== src/Session/Extended/Parameters/Replacing.antt =====
-- `replace` of one placeholder in text that holds others.
use exa_postgres_interface.Base.{
  All-mono, ℕ, suc, ◌+◌, ◌-◌, ◌*◌, ◌≤◌, ◌<◌, ◌==◌, ==_iff, Bool, true, false, Bool-cases, inl, inr,
  [], ◌∷◌, ◌++◌, All, none, some, Option-cases, if◌then◌else◌, ◌≡◌, refl, sym, ap, ◌∙◌, subst,
  arith,
}
use exa_postgres_interface.Base.Text.{
  Text, is_ascii_digit, digits_from, digits_from-decimal_on, digits_from-to_decimal, to_decimal,
  to_decimal-All, strip_prefix, text_length, replace_from,
}
use exa_postgres_interface.Session.Extended.Parameters.{placeholder}

abbrev pub dollar : ℕ
dollar = b'$'

-- Without a dollar sign.
abbrev pub IsPlain : Text → Type 0
IsPlain s = All (λ c. (c == dollar) ≡ false) s

-- The text does not go on with a digit.
abbrev pub no_digit : Text → Bool
no_digit [] = true
no_digit (c ∷ s) = if is_ascii_digit c then false else true

module _ (p by : Text) where
  replace_from-plain :
      (s t : Text)
      → IsPlain s
      → replace_from 0 (dollar ∷ p) by (s ++ t) ≡ s ++ replace_from 0 (dollar ∷ p) by t
  replace_from-plain [] t h = refl
  replace_from-plain (c ∷ s) t (k, h) =
      let e : (dollar == c) ≡ false = ground (arith, k) in
      rw (e, replace_from) (ap (λ r. c ∷ r) (replace_from-plain s t h))

  replace_from-skip :
      (pat s t : Text) → replace_from (text_length s) pat by (s ++ t) ≡ replace_from 0 pat by t
  replace_from-skip pat [] t = refl
  replace_from-skip pat (c ∷ s) t =
      let e : 1 + text_length s ≡ suc (text_length s) = omega arith in
      rw e (replace_from-skip pat s t)

strip_prefix-append : (p t : Text) → strip_prefix p (p ++ t) ≡ some t
strip_prefix-append [] t = refl
strip_prefix-append (c ∷ p) t = ground (arith, strip_prefix-append p t)

-- A run of digits that begins a text with digits at its front lies in those digits.
strip_prefix-digits :
    (a b t r : Text)
    → All (λ c. is_ascii_digit c ≡ true) a
    → no_digit t ≡ true
    → strip_prefix a (b ++ t) ≡ some r
    → (b' : Text) × (b ≡ a ++ b')
strip_prefix-digits [] b t r h n e = (b, refl)
strip_prefix-digits (c ∷ a) [] [] r h n e = absurd (ground (arith, e))
strip_prefix-digits (c ∷ a) [] (d ∷ t) r (k, h) n e = absurd (ground (arith, e, k, n))
strip_prefix-digits (c ∷ a) (d ∷ b) t r (k, h) n e = elim (Bool-cases (c == d)) [
  | inr differ ↦ absurd (ground (arith, e, differ))
  | inl same ↦
      let f : strip_prefix a (b ++ t) ≡ some r = ground (arith, e, same) in
      let (b', g) = strip_prefix-digits a b t r h n f in
      let cd : d ≡ c = sym ((==_iff c d).0 same) in (b', rw cd (ap (λ s. c ∷ s) g))
]

digits_from_ge : (m n : ℕ) (s : Text) → digits_from m s ≡ some n → m ≤ n
digits_from_ge m n [] e = ground (arith, e)
digits_from_ge m n (c ∷ s) e = elim (Bool-cases (is_ascii_digit c)) [
  | inl d ↦
      let f : digits_from (m * 10 + (c - b'0')) s ≡ some n = ground (arith, e, d) in
      omega (arith, digits_from_ge (m * 10 + (c - b'0')) n s f)
  | inr d ↦ absurd (ground (arith, e, d))
]

to_decimal-IsPlain : (n : ℕ) → IsPlain (to_decimal n)
to_decimal-IsPlain n =
    All-mono (λ c d. let e : (c == dollar) ≡ false = ground (arith, d) in e) (to_decimal n)
      (to_decimal-All n)

-- A smaller number is no longer print of the larger one's.
strip_prefix-to_decimal :
    (k n : ℕ) (t : Text)
    → n < k
    → no_digit t ≡ true
    → strip_prefix (to_decimal k) (to_decimal n ++ t) ≡ none
unfolding to_decimal
strip_prefix-to_decimal k n t h d =
    elim (Option-cases (strip_prefix (to_decimal k) (to_decimal n ++ t))) [
      | inl e ↦ e
      | inr (r, e) ↦
          let (b', f) =
            strip_prefix-digits (to_decimal k) (to_decimal n) t r (to_decimal-All k) d e in
          let g : digits_from 0 (to_decimal k ++ b') ≡ some n =
            subst (λ s. digits_from 0 s ≡ some n) f (digits_from-to_decimal n) in
          let i : digits_from k b' ≡ some n =
            sym (digits_from-decimal_on (suc k) k b' (omega arith)) ∙ g in
          absurd (omega (arith, h, digits_from_ge k n b' i))
    ]

-- A placeholder is replaced where it stands.
pub replace_from-same :
    (k : ℕ) (by t : Text)
    → replace_from 0 (placeholder k) by (placeholder k ++ t)
      ≡ by ++ replace_from 0 (placeholder k) by t
replace_from-same k by t =
    let e : 1 + text_length (to_decimal k) - 1 ≡ text_length (to_decimal k) = omega arith in
    rw (strip_prefix-append (to_decimal k) t, replace_from)
      (rw e
        (ap (λ s. by ++ s) (replace_from-skip (to_decimal k) by (placeholder k) (to_decimal k) t)))

-- The placeholder of a smaller number stays, if no digit follows it.
pub replace_from-smaller :
    (k n : ℕ) (by t : Text)
    → n < k
    → no_digit t ≡ true
    → replace_from 0 (placeholder k) by (placeholder n ++ t)
      ≡ placeholder n ++ replace_from 0 (placeholder k) by t
replace_from-smaller k n by t h d =
    rw (strip_prefix-to_decimal k n t h d, replace_from)
      (ap (λ s. dollar ∷ s)
        (replace_from-plain (to_decimal k) by (to_decimal n) t (to_decimal-IsPlain n)))

-- Text without a dollar sign stays.
pub replace_from-IsPlain :
    (k : ℕ) (by s t : Text)
    → IsPlain s
    → replace_from 0 (placeholder k) by (s ++ t) ≡ s ++ replace_from 0 (placeholder k) by t
replace_from-IsPlain k by s t h = replace_from-plain (to_decimal k) by s t h
