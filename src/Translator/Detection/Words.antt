-- ===== src/Translator/Detection/Words.antt =====
-- Where `contains_word` finds a word; the source calls it with the names of catalog relations only.
use exa_postgres_interface.Base.{
  ℕ, zero, suc, ◌+◌, ◌-◌, ◌≤◌, ◌↔◌, ◌==◌, ==_iff, leb, Bool, true, false, not, ◌&&◌, Bool-cases,
  inl, inr, [], ◌∷◌, ◌++◌, head?, Option, Option-cases, none, some, ◌≡◌, refl, sym, ap, ◌∙◌, subst,
  arith,
}
use exa_postgres_interface.Base.Text.{Text, strip_prefix, text_length}
use exa_postgres_interface.Translator.Detection.{
  is_ident_char, is_ident, contains_word_from, contains_word,
}

abbrev pub last_from : Option ℕ → Text → Option ℕ
last_from start [] = start
last_from start (c ∷ s) = last_from (some c) s

abbrev pub all_ident : Text → Bool
all_ident [] = true
all_ident (c ∷ s) = is_ident_char c && all_ident s

-- The text has the needle somewhere, with no character of an identifier before and behind it.
pub data IsWordIn (needle : Text) (start : Option ℕ) (s : Text) : Type 0 where
  stands :
      (a b : Text)
      → s ≡ a ++ (needle ++ b)
      → is_ident (last_from start a) ≡ false
      → is_ident (head? b) ≡ false
      → IsWordIn needle start s

pub strip_prefix-append : (p s r : Text) → strip_prefix p s ≡ some r → s ≡ p ++ r
strip_prefix-append [] s r e = ground (arith, e)
strip_prefix-append (c ∷ p) [] r e = absurd (ground (arith, e))
strip_prefix-append (c ∷ p) (d ∷ s) r e = elim (Bool-cases (c == d)) [
  | inl t ↦
      let i = strip_prefix-append p s r (sym (rw (t, strip_prefix) refl) ∙ e) in
      ap (d ∷◌) i ∙ ap (λ z. z ∷ (p ++ r)) (sym ((==_iff c d).0 t))
  | inr f ↦ absurd (ground (arith, e, f))
]

append-strip_prefix : (p b : Text) → strip_prefix p (p ++ b) ≡ some b
append-strip_prefix [] b = refl
append-strip_prefix (c ∷ p) b = rw (((==_iff c c).1 refl), strip_prefix) (append-strip_prefix p b)

inside :
    (p a t r : Text) (start : Option ℕ)
    → all_ident p ≡ true
    → p ++ r ≡ a ++ t
    → text_length a ≤ text_length p
    → is_ident start ≡ true
    → is_ident (last_from start a) ≡ true
inside p [] t r start i e h k = k
inside [] (x ∷ a) t r start i e h k = absurd (ground arith)
inside (y ∷ p) (x ∷ a) t r start i e h k =
    let e_tails : y ∷ (p ++ r) ≡ x ∷ (a ++ t) = e in
    let y_x : y ≡ x = cc in
    let tails : p ++ r ≡ a ++ t = cc in
    let l : text_length a ≤ text_length p = omega arith in
    inside p a t r (some x) (ground (arith, i)) tails l
      (subst (λ z. is_ident_char z ≡ true) y_x (ground (arith, i)))

-- No word starts inside another match.
within :
    (n : ℕ) (needle : Text) (c : ℕ) (a b rest : Text)
    → all_ident (n ∷ needle) ≡ true
    → c ∷ (a ++ ((n ∷ needle) ++ b)) ≡ n ∷ (needle ++ rest)
    → is_ident (last_from (some c) a) ≡ false
    → text_length (n ∷ needle) - 1 ≤ text_length a
within n needle c a b rest i e p = elim (Bool-cases (leb (text_length needle) (text_length a))) [
  | inl t ↦ ground (arith, t)
  | inr f ↦
      let tails : needle ++ rest ≡ a ++ ((n ∷ needle) ++ b) = cc in
      let c_n : n ≡ c = cc in
      let l : text_length a ≤ text_length needle = ground (arith, f) in
      let k =
        inside needle a ((n ∷ needle) ++ b) rest (some c) (ground (arith, i)) tails l
          (subst (λ z. is_ident_char z ≡ true) c_n (ground (arith, i))) in
      absurd cc
]

suc_le : (a b : ℕ) → suc a ≤ 1 + b → a ≤ b
suc_le a b h = omega arith

zero_le : (a : ℕ) → 0 ≤ a
zero_le a = omega arith

-- Behind what is before the needle, the search finds it.
contains_word_from-stands :
    (n : ℕ) (needle : Text) (skip : ℕ) (start : Option ℕ) (a b : Text)
    → all_ident (n ∷ needle) ≡ true
    → skip ≤ text_length a
    → is_ident (last_from start a) ≡ false
    → is_ident (head? b) ≡ false
    → contains_word_from (n ∷ needle) skip start (a ++ ((n ∷ needle) ++ b)) ≡ true
contains_word_from-stands n needle zero start [] b i h p q =
    rw (append-strip_prefix (n ∷ needle) b, contains_word_from) (rw p (rw q refl))
contains_word_from-stands n needle (suc skip) start [] b i h p q = absurd (ground arith)
contains_word_from-stands n needle (suc skip) start (c ∷ a) b i h p q =
    contains_word_from-stands n needle skip (some c) a b i (suc_le skip (text_length a) h) p q
contains_word_from-stands n needle zero start (c ∷ a) b i h p q =
    elim (Option-cases (strip_prefix (n ∷ needle) (c ∷ (a ++ ((n ∷ needle) ++ b))))) [
      | inl e ↦
          rw (e, contains_word_from)
            (contains_word_from-stands n needle zero (some c) a b i (zero_le _) p q)
      | inr (rest, e) ↦ elim (Bool-cases (not (is_ident start) && not (is_ident (head? rest)))) [
        | inl t ↦ rw (e, contains_word_from) (rw t refl)
        | inr f ↦
            rw (e, contains_word_from)
              (rw f (
                contains_word_from-stands n needle (text_length (n ∷ needle) - 1) (some c) a b i
                  (within n needle c a b rest i (strip_prefix-append (n ∷ needle) _ rest e) p) p q))
      ]
    ]

IsWordIn-behind :
    (needle : Text) (start : Option ℕ) (c : ℕ) (s : Text)
    → IsWordIn needle (some c) s
    → IsWordIn needle start (c ∷ s)
IsWordIn-behind needle start c s (stands a b e p q) = stands (c ∷ a) b (ap (c ∷◌) e) p q

-- The search finds what has no character of an identifier around it.
contains_word_from-IsWordIn :
    (needle : Text) (skip : ℕ) (start : Option ℕ) (s : Text)
    → contains_word_from needle skip start s ≡ true
    → IsWordIn needle start s
contains_word_from-IsWordIn needle skip start [] e = absurd cc
contains_word_from-IsWordIn needle (suc skip) start (c ∷ s) e =
    IsWordIn-behind needle start c s (contains_word_from-IsWordIn needle skip (some c) s e)
contains_word_from-IsWordIn needle zero start (c ∷ s) e =
    elim (Option-cases (strip_prefix needle (c ∷ s))) [
      | inl f ↦
          IsWordIn-behind needle start c s
            (contains_word_from-IsWordIn needle zero (some c) s (rw (f, contains_word_from) at e))
      | inr (rest, f) ↦ elim (Bool-cases (not (is_ident start) && not (is_ident (head? rest)))) [
        | inl t ↦
            stands [] rest (strip_prefix-append needle (c ∷ s) rest f) (ground (arith, t))
              (ground (arith, t))
        | inr g ↦ IsWordIn-behind needle start c s (
            contains_word_from-IsWordIn needle (text_length needle - 1) (some c) s
              (rw (f, contains_word_from, g) at e))
      ]
    ]

IsWordIn-contains_word_from :
    (n : ℕ) (needle haystack : Text)
    → all_ident (n ∷ needle) ≡ true
    → IsWordIn (n ∷ needle) none haystack
    → contains_word_from (n ∷ needle) 0 none haystack ≡ true
IsWordIn-contains_word_from n needle haystack i (stands a b e p q) =
    subst (λ s. contains_word_from (n ∷ needle) 0 none s ≡ true) (sym e)
      (contains_word_from-stands n needle 0 none a b i (zero_le _) p q)

-- A word of an identifier's characters is found just where it stands with no such character before or
-- behind it, also where a match before it is passed over.
pub contains_word-IsWordIn :
    (haystack : Text) (n : ℕ) (needle : Text)
    → all_ident (n ∷ needle) ≡ true
    → (contains_word haystack (n ∷ needle) ≡ true) ↔ IsWordIn (n ∷ needle) none haystack
unfolding contains_word
contains_word-IsWordIn haystack n needle i = (
  contains_word_from-IsWordIn (n ∷ needle) 0 none haystack,
  (λ w. IsWordIn-contains_word_from n needle haystack i w),
)
