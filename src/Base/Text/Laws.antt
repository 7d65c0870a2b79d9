-- ===== src/Base/Text/Laws.antt =====
-- Laws of the text functions.
use exa_postgres_interface.Base.Tests.{◌==◌, ==_iff, Bool-cases}
use exa_postgres_interface.Base.Text.Search.{
  Text, is_whitespace, trim, text_eq, trim_start_while, trim_while, split_once, replace_char,
  undouble,
}
use exa_postgres_interface.Base.Lists.{All, All-reverse}
use Prim.Native.Nat.{ℕ}
use mathlib.Core.Bool.{Bool, true, false}
use mathlib.Core.Logic.{◌↔◌, inl, inr}
use mathlib.Core.List.{[], ◌∷◌, ◌++◌, reverse, reverse-append, reverse-reverse}
use mathlib.Core.Option.{none}
use mathlib.Core.Path.{◌≡◌, refl}
use native.Mathlib.Omega.{arith}

pub text_eq_iff : (s t : Text) → (text_eq s t ≡ true) ↔ (s ≡ t)
text_eq_iff [] [] = (λ _. refl, λ _. refl)
text_eq_iff [] (d ∷ t) = (λ h. cc, λ h. cc)
text_eq_iff (c ∷ s) [] = (λ h. cc, λ h. cc)
text_eq_iff (c ∷ s) (d ∷ t) = ground (arith, text_eq_iff s t)

pub text_eq_refl : (s : Text) → text_eq s s ≡ true
text_eq_refl s = (text_eq_iff s s).1 refl

-- Nothing is trimmed from a text whose first and last characters are kept.
pub trim_while_of_ends :
    (p : ℕ → Bool) (a b : ℕ) (s : Text)
    → p a ≡ false
    → p b ≡ false
    → trim_while p (a ∷ (s ++ b ∷ [])) ≡ a ∷ (s ++ b ∷ [])
trim_while_of_ends p a b s ha hb =
    let e : reverse (a ∷ (s ++ b ∷ [])) ≡ b ∷ reverse (a ∷ s) = reverse-append (a ∷ s) (b ∷ []) in
    let f : reverse (b ∷ reverse (a ∷ s)) ≡ a ∷ (s ++ b ∷ []) =
      rw (← e) (reverse-reverse (a ∷ (s ++ b ∷ []))) in
    rw ha (rw e (rw hb f))

undouble-cons_ne : (q c : ℕ) (s : Text) → (c == q) ≡ false → undouble q (c ∷ s) ≡ c ∷ undouble q s
unfolding undouble
undouble-cons_ne q c [] h = refl
undouble-cons_ne q c (d ∷ s) h = ground arith

undouble-double : (q : ℕ) (s : Text) → undouble q (q ∷ q ∷ s) ≡ q ∷ undouble q s
unfolding undouble
undouble-double q s = ground arith

-- Undoubling a text in which every `q` was doubled gives the text back.
pub undouble-replace_char : (q : ℕ) (s : Text) → undouble q (replace_char q (q ∷ q ∷ []) s) ≡ s
unfolding replace_char
undouble-replace_char q [] = unfold undouble in refl
undouble-replace_char q (c ∷ s) = elim (Bool-cases (c == q)) [
  | inl same ↦
      rw (same, undouble-double q _, undouble-replace_char q s) (ground (arith, ==_iff c q))
  | inr other ↦ rw (other, undouble-cons_ne q c _ other, undouble-replace_char q s)
]

trim_start_while_of_All :
    (p : ℕ → Bool) (s : Text) → All (λ c. p c ≡ false) s → trim_start_while p s ≡ s
trim_start_while_of_All p [] h = refl
trim_start_while_of_All p (c ∷ s) (k, h) = rw k

-- Nothing is trimmed from a text whose characters are all kept.
pub trim_while_of_All : (p : ℕ → Bool) (s : Text) → All (λ c. p c ≡ false) s → trim_while p s ≡ s
trim_while_of_All p s h = rw (trim_start_while_of_All p s h) (
    rw (trim_start_while_of_All p (reverse s) (All-reverse (λ c. p c ≡ false) s h))
      (reverse-reverse s))

pub trim_of_All : (s : Text) → All (λ c. is_whitespace c ≡ false) s → trim s ≡ s
unfolding trim
trim_of_All s h = trim_while_of_All is_whitespace s h

-- A text without the character is not cut there.
pub split_once_of_All :
    (c : ℕ) (s : Text) → All (λ d. (d == c) ≡ false) s → split_once (c ∷ []) s ≡ none
unfolding split_once
split_once_of_All c [] h = refl
split_once_of_All c (d ∷ s) (k, h) =
    let e : (c == d) ≡ false = ground (arith, k) in
    rw (e, split_once) (rw (split_once_of_All c s h))
