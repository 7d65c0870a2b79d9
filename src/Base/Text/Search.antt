-- ===== src/Base/Text/Search.antt =====
-- `str::trim`, `split_whitespace`, ASCII case, `contains`, `starts_with`, `replace`, `split`.
use exa_postgres_interface.Base.Tests.{leb, ◌==◌, if◌then◌else◌}
use Prim.Native.Nat.{ℕ, zero, suc, ◌+◌, ◌-◌}
use Prim.Native.Char.{code}
use Prim.Native.String.{String}
use mathlib.Core.Bool.{Bool, true, false, ◌&&◌, ◌||◌}
use mathlib.Core.List.{List, [], ◌∷◌, ◌++◌, map, reverse}
use mathlib.Core.Option.{Option, none, some}

abbrev pub Text : Type 0
Text = List ℕ

abbrev pub codes : String → Text
codes String.[] = []
codes (String.◌∷◌ c s) = code c ∷ codes s

abbrev pub is_empty : Text → Bool
is_empty [] = true
is_empty (c ∷ s) = false

abbrev pub text_eq : Text → Text → Bool
text_eq [] [] = true
text_eq [] (d ∷ t) = false
text_eq (c ∷ s) [] = false
text_eq (c ∷ s) (d ∷ t) = c == d && text_eq s t

-- `char::is_whitespace`: the Unicode property White_Space.
unfoldable pub is_whitespace : ℕ → Bool
is_whitespace c =
    (leb 0x09 c && leb c 0x0d)
    || c == 0x20
    || c == 0x85
    || c == 0xa0
    || c == 0x1680
    || (leb 0x2000 c && leb c 0x200a)
    || c == 0x2028
    || c == 0x2029
    || c == 0x202f
    || c == 0x205f
    || c == 0x3000

unfoldable pub to_ascii_uppercase_char : ℕ → ℕ
to_ascii_uppercase_char c = if leb b'a' c && leb c b'z' then c - 32 else c

unfoldable pub to_ascii_lowercase_char : ℕ → ℕ
to_ascii_lowercase_char c = if leb b'A' c && leb c b'Z' then c + 32 else c

unfoldable pub to_ascii_uppercase : Text → Text
unfolding to_ascii_uppercase_char
to_ascii_uppercase s = map to_ascii_uppercase_char s

unfoldable pub to_ascii_lowercase : Text → Text
unfolding to_ascii_lowercase_char
to_ascii_lowercase s = map to_ascii_lowercase_char s

unfoldable pub eq_ignore_ascii_case : Text → Text → Bool
unfolding to_ascii_lowercase
eq_ignore_ascii_case s t = text_eq (to_ascii_lowercase s) (to_ascii_lowercase t)

-- `trim_start_matches(p)`, `trim_end_matches(p)`, `trim_matches(p)` for a test on one character.
abbrev pub trim_start_while : (ℕ → Bool) → Text → Text
trim_start_while p [] = []
trim_start_while p (c ∷ s) = if p c then trim_start_while p s else c ∷ s

abbrev pub trim_end_while : (ℕ → Bool) → Text → Text
trim_end_while p s = reverse (trim_start_while p (reverse s))

abbrev pub trim_while : (ℕ → Bool) → Text → Text
trim_while p s = trim_end_while p (trim_start_while p s)

unfoldable pub trim : Text → Text
unfolding is_whitespace
trim s = trim_while is_whitespace s

-- The words so far, newest first, and the current word, newest character first.
abbrev words_from : List Text → Text → Text → List Text
words_from done [] [] = reverse done
words_from done (d ∷ cur) [] = reverse (reverse (d ∷ cur) ∷ done)
words_from done [] (c ∷ s) = words_from done (if is_whitespace c then [] else c ∷ []) s
words_from done (d ∷ cur) (c ∷ s) =
    words_from (if is_whitespace c then reverse (d ∷ cur) ∷ done else done)
      (if is_whitespace c then [] else c ∷ d ∷ cur) s

unfoldable pub split_whitespace : Text → List Text
unfolding is_whitespace
split_whitespace s = words_from [] [] s

-- The rest behind a prefix.
abbrev pub strip_prefix : Text → Text → Option Text
strip_prefix [] s = some s
strip_prefix (c ∷ p) [] = none
strip_prefix (c ∷ p) (d ∷ s) = if c == d then strip_prefix p s else none

abbrev pub is_some {ℓ} : {A : Type ℓ} → Option A → Bool
is_some none = false
is_some (some a) = true

abbrev pub starts_with : Text → Text → Bool
starts_with s p = is_some (strip_prefix p s)

abbrev pub ends_with : Text → Text → Bool
ends_with s p = starts_with (reverse s) (reverse p)

unfoldable pub contains : Text → Text → Bool
contains [] p = starts_with [] p
contains (c ∷ s) p = starts_with (c ∷ s) p || contains s p

-- The text up to the first match and the text behind it (`split_once`, `find`).
unfoldable pub split_once : Text → Text → Option (Text × Text)
split_once p [] = elim (strip_prefix p []) [ none ↦ none | some rest ↦ some ([], rest) ]
split_once p (c ∷ s) = elim (strip_prefix p (c ∷ s)) [
  | some rest ↦ some ([], rest)
  | none ↦ elim (split_once p s) [ none ↦ none | some (a, b) ↦ some (c ∷ a, b) ]
]

-- `replace` of one character by a text.
unfoldable pub replace_char : ℕ → Text → Text → Text
replace_char q by [] = []
replace_char q by (c ∷ s) = (if c == q then by else c ∷ []) ++ replace_char q by s

-- `replace` of a doubled character by the character: matches do not overlap.
unfoldable pub undouble : ℕ → Text → Text
undouble q [] = []
undouble q (c ∷ []) = c ∷ []
undouble q (c ∷ d ∷ s) =
    let joined = q ∷ undouble q s in
    let kept = c ∷ undouble q (d ∷ s) in if c == q && d == q then joined else kept

abbrev pub text_length : Text → ℕ
text_length [] = 0
text_length (c ∷ s) = 1 + text_length s

-- `replace` of a text that is not empty: matches from the left, which do not overlap; `skip`
-- characters of the last match are still to be passed over.
abbrev pub replace_from : ℕ → Text → Text → Text → Text
replace_from skip p by [] = []
replace_from (suc skip) p by (c ∷ s) = replace_from skip p by s
replace_from zero p by (c ∷ s) = elim (strip_prefix p (c ∷ s)) [
  | none ↦ c ∷ replace_from zero p by s
  | some _ ↦ by ++ replace_from (text_length p - 1) p by s
]

unfoldable pub replace : Text → Text → Text → Text
replace p by s = replace_from 0 p by s
