-- ===== src/Translator/Detection/Pieces.antt =====
-- The pieces of a statement, and what `strip_sql_comments_for_detection` makes of each.
use exa_postgres_interface.Base.{
  ℕ, ◌==◌, Bool, true, false, not, ◌&&◌, if◌then◌else◌, Bool-cases, inl, inr, List, [], ◌∷◌, ◌++◌,
  ◌≡◌, refl, ap, ◌∙◌, arith,
}
use exa_postgres_interface.Base.Text.{Text, replace_char}
use exa_postgres_interface.Translator.Detection.{
  Mode, behind, closed_by, strip_from, strip_sql_comments_for_detection,
}
use exa_postgres_interface.Translator.Detection.Steps.{
  starts, pair, outside-step, single-step, double-step,
}

-- A character outside quotes, a literal, a name in double quotes, a comment up to the end of its line, or
-- a block comment; each with what stands between its delimiters.
pub data Piece : Type 0 where
  character : ℕ → Piece
  literal quoted_name line_comment block_comment : Text → Piece

abbrev pub doubled : ℕ → Text → Text
doubled q s = replace_char q (q ∷ q ∷ []) s

abbrev pub in_quotes : ℕ → Text → Text → Text
in_quotes q s rest = q ∷ (doubled q s ++ q ∷ rest)

-- The line ends of a text.
abbrev pub line_ends : Text → Text
line_ends [] = []
line_ends (c ∷ s) = if c == 10 then 10 ∷ line_ends s else line_ends s

-- The text of a statement.
abbrev pub print : List Piece → Text
print [] = []
print (Piece.character c ∷ ps) = c ∷ print ps
print (Piece.literal s ∷ ps) = in_quotes b'\'' s (print ps)
print (Piece.quoted_name s ∷ ps) = in_quotes b'"' s (print ps)
print (Piece.line_comment s ∷ ps) = b'-' ∷ b'-' ∷ (s ++ 10 ∷ print ps)
print (Piece.block_comment s ∷ ps) = b'/' ∷ b'*' ∷ (s ++ b'*' ∷ b'/' ∷ print ps)

-- The text without the comments: a blank is left of each, with its line ends.
abbrev pub print_stripped : List Piece → Text
print_stripped [] = []
print_stripped (Piece.character c ∷ ps) = c ∷ print_stripped ps
print_stripped (Piece.literal s ∷ ps) = in_quotes b'\'' s (print_stripped ps)
print_stripped (Piece.quoted_name s ∷ ps) = in_quotes b'"' s (print_stripped ps)
print_stripped (Piece.line_comment s ∷ ps) = b' ' ∷ 10 ∷ print_stripped ps
print_stripped (Piece.block_comment s ∷ ps) = b' ' ∷ (line_ends s ++ print_stripped ps)

-- No end of a block comment stands in the text, behind the character `previous`.
abbrev pub never_ends : ℕ → Text → Bool
never_ends previous [] = true
never_ends previous (c ∷ s) =
    let rest = never_ends c s in if previous == b'*' && c == b'/' then false else rest

abbrev pub has_no_line_end : Text → Bool
has_no_line_end [] = true
has_no_line_end (c ∷ s) = not (c == 10) && has_no_line_end s

-- The pieces are those of their text: a character opens no quotes and no comment, no quote doubles the one
-- that closes a literal or a name, and a comment ends where its text does.
abbrev pub AreSeparate : List Piece → Type 0
AreSeparate [] = Unit {0}
AreSeparate (Piece.character c ∷ ps) =
    ((c == b'\'') ≡ false)
    × ((c == b'"') ≡ false)
    × (pair b'-' b'-' c (print ps) ≡ false)
    × (pair b'/' b'*' c (print ps) ≡ false)
    × AreSeparate ps
AreSeparate (Piece.literal s ∷ ps) = (starts b'\'' (print ps) ≡ false) × AreSeparate ps
AreSeparate (Piece.quoted_name s ∷ ps) = (starts b'"' (print ps) ≡ false) × AreSeparate ps
AreSeparate (Piece.line_comment s ∷ ps) = (has_no_line_end s ≡ true) × AreSeparate ps
AreSeparate (Piece.block_comment s ∷ ps) = (never_ends 0 s ≡ true) × AreSeparate ps

-- From the inside of quotes to behind them.
strip_from-quoted :
    (m : Mode) (q : ℕ)
    → (q == q) ≡ true
    → ((c : ℕ) (s : Text)
        → pair q q c s ≡ false
        → strip_from m (c ∷ s) ≡ c ∷ strip_from (closed_by q c m) s)
    → ((s : Text) → strip_from m (q ∷ q ∷ s) ≡ q ∷ q ∷ strip_from m s)
    → (value rest : Text) → starts q rest ≡ false
    → strip_from m (doubled q value ++ q ∷ rest)
      ≡ doubled q value ++ q ∷ strip_from Mode.outside rest
unfolding replace_char
strip_from-quoted m q e one two [] rest h = one q rest (rw (e, pair) h) ∙ rw (e, closed_by) refl
strip_from-quoted m q e one two (c ∷ value) rest h = elim (Bool-cases (c == q)) [
  | inl t ↦
      rw (t, replace_char)
        (two _ ∙ ap (λ u. q ∷ q ∷ u) (strip_from-quoted m q e one two value rest h))
  | inr f ↦
      rw (f, replace_char)
        (one c _ (rw (f, pair) refl)
          ∙ rw (f, closed_by) (ap (c ∷◌) (strip_from-quoted m q e one two value rest h)))
]

strip_from-line :
    (s rest : Text)
    → has_no_line_end s ≡ true
    → strip_from Mode.line (s ++ 10 ∷ rest) ≡ 10 ∷ strip_from Mode.outside rest
strip_from-line [] rest h = refl
strip_from-line (c ∷ s) rest h = elim (Bool-cases (c == 10)) [
  | inl t ↦ absurd (ground (arith, h, t))
  | inr f ↦ rw (f, strip_from) (strip_from-line s rest (rw (f, has_no_line_end) at h))
]

strip_from-block :
    (previous : ℕ) (s rest : Text)
    → never_ends previous s ≡ true
    → strip_from (Mode.block previous) (s ++ b'*' ∷ b'/' ∷ rest)
      ≡ line_ends s ++ strip_from Mode.outside rest
strip_from-block previous [] rest h = ground arith
strip_from-block previous (c ∷ s) rest h = elim (Bool-cases (previous == b'*' && c == b'/')) [
  | inl t ↦ absurd (ground (arith, h, t))
  | inr f ↦
      let later : never_ends c s ≡ true = rw (f, never_ends) at h in
      elim (Bool-cases (c == 10)) [
        | inl t ↦
            rw (f, strip_from) (rw (t, strip_from) (ap (10 ∷◌) (strip_from-block c s rest later)))
        | inr g ↦ rw (f, strip_from) (rw (g, strip_from) (strip_from-block c s rest later))
      ]
]

behind-outside : (c : ℕ) → (c == b'\'') ≡ false → (c == b'"') ≡ false → behind c ≡ Mode.outside
behind-outside c f g = rw (f, behind) (rw g refl)

strip_from-in_quotes :
    (m : Mode) (q : ℕ)
    → (q == q) ≡ true
    → (q == b'-') ≡ false
    → (q == b'/') ≡ false
    → behind q ≡ m
    → ((c : ℕ) (s : Text)
        → pair q q c s ≡ false
        → strip_from m (c ∷ s) ≡ c ∷ strip_from (closed_by q c m) s)
    → ((s : Text) → strip_from m (q ∷ q ∷ s) ≡ q ∷ q ∷ strip_from m s)
    → (value rest : Text) → starts q rest ≡ false
    → strip_from Mode.outside (in_quotes q value rest)
      ≡ in_quotes q value (strip_from Mode.outside rest)
strip_from-in_quotes m q e minus slash opens one two value rest h =
    outside-step q _ (rw (minus, pair) refl) (rw (slash, pair) refl)
    ∙ ap (λ n. q ∷ strip_from n (doubled q value ++ q ∷ rest)) opens
    ∙ ap (q ∷◌) (strip_from-quoted m q e one two value rest h)

strip_from-print :
    (ps : List Piece) → AreSeparate ps → strip_from Mode.outside (print ps) ≡ print_stripped ps
strip_from-print [] h = refl
strip_from-print (Piece.character c ∷ ps) (f, g, minus, slash, h) =
    outside-step c (print ps) minus slash
    ∙ ap (λ n. c ∷ strip_from n (print ps)) (behind-outside c f g)
    ∙ ap (c ∷◌) (strip_from-print ps h)
strip_from-print (Piece.literal s ∷ ps) (ends, h) =
    strip_from-in_quotes Mode.single_quote b'\'' refl refl refl refl single-step (λ u. refl) s
      (print ps) ends
    ∙ ap (in_quotes b'\'' s) (strip_from-print ps h)
strip_from-print (Piece.quoted_name s ∷ ps) (ends, h) =
    strip_from-in_quotes Mode.double_quote b'"' refl refl refl refl double-step (λ u. refl) s
      (print ps) ends
    ∙ ap (in_quotes b'"' s) (strip_from-print ps h)
strip_from-print (Piece.line_comment s ∷ ps) (ends, h) =
    ap (32 ∷◌) (strip_from-line s (print ps) ends ∙ ap (10 ∷◌) (strip_from-print ps h))
strip_from-print (Piece.block_comment s ∷ ps) (ends, h) =
    ap (32 ∷◌)
      (strip_from-block 0 s (print ps) ends ∙ ap (λ u. line_ends s ++ u) (strip_from-print ps h))

-- A statement made of characters outside quotes, literals, names in double quotes and comments loses its
-- comments and nothing else: each comment becomes a blank with the line ends in it, and what stands in
-- quotes is kept as it is, whatever signs of comments or quotes are in it. The pieces are those of the text:
-- a character opens no quotes and no comment, no quote follows the one that closes a literal or a name, a
-- comment to the end of the line has one, and a block comment is closed.
pub strip_sql_comments_for_detection-print :
    (ps : List Piece)
    → AreSeparate ps
    → strip_sql_comments_for_detection (print ps) ≡ print_stripped ps
unfolding strip_sql_comments_for_detection
strip_sql_comments_for_detection-print ps h = strip_from-print ps h
