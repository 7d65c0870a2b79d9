-- ===== src/Translator/Qualified.antt =====
-- `qualify_function` of src/translator.rs against the pieces of the text: the offsets of its loop.
use exa_postgres_interface.Base.{
  ℕ, zero, suc, ◌+◌, ◌-◌, ◌≤◌, true, false, List, [], ◌∷◌, ◌++◌, reverse, head?, Option, none, some,
  take, drop, length, length-append, drop_of_length-le, length-drop, append_assoc, append-nil,
  Bool-cases, inl, inr, ◌≡◌, refl, sym, ap, ap₂, ◌∙◌, arith,
}
use mathlib.Core.List.{reverse-cons}
use exa_postgres_interface.Base.Text.{Text, codes}
use exa_postgres_interface.Policy.Regexes.{Regexes, Match}
use exa_postgres_interface.Translator.Detection.Words.{last_from}
use exa_postgres_interface.Translator.Laws.{RegexLaws, whole}
use exa_postgres_interface.Translator.Rewrites.{
  replaced, find_iter, is_part, qualify_from, call_pattern, qualify_function,
}

-- A call of the function in the text: not where a dot, a quote or an identifier's character is before it.
abbrev pub qualified_match : Text → Option ℕ → Match → Text
qualified_match target before m = elim (is_part before) [
  | true ↦ whole m
  | false ↦ target ++ codes "("
]

-- The text with its calls qualified; `before` is the character before it.
abbrev pub qualified_text : Text → Option ℕ → List Match → Text → Text
qualified_text target before [] rest = rest
qualified_text target before (m ∷ ms) rest =
    m.before
    ++ (qualified_match target (last_from before m.before) m
        ++ qualified_text target (last_from before (m.before ++ whole m)) ms rest)

take_prefix : (p s : Text) (n : ℕ) → n ≡ length p → take n (p ++ s) ≡ p
take_prefix [] s zero h = refl
take_prefix [] s (suc n) h = absurd (omega arith)
take_prefix (c ∷ p) s zero h = absurd (omega arith)
take_prefix (c ∷ p) s (suc n) h = ap (c ∷◌) (take_prefix p s n (omega arith))

drop_short : (p s : Text) (n : ℕ) → n ≤ length p → drop n (p ++ s) ≡ drop n p ++ s
drop_short p s zero h = refl
drop_short [] s (suc n) h = absurd (omega arith)
drop_short (c ∷ p) s (suc n) h = drop_short p s n (omega arith)

last-reverse : (s t : Text) → head? (reverse s ++ t) ≡ last_from (head? t) s
last-reverse [] t = refl
last-reverse (c ∷ s) t =
    ap head? (ap (◌++ t) (reverse-cons c s) ∙ append_assoc (reverse s) (c ∷ []) t)
    ∙ last-reverse s (c ∷ t)

last_from-append :
    (start : Option ℕ) (s t : Text) → last_from start (s ++ t) ≡ last_from (last_from start s) t
last_from-append start [] t = refl
last_from-append start (c ∷ s) t = last_from-append (some c) s t

regroup : (a b c d : Text) → (a ++ (b ++ c)) ++ d ≡ a ++ (b ++ (c ++ d))
regroup a b c d = append_assoc a (b ++ c) d ∙ ap (a ++◌) (append_assoc b c d)

-- The character that the loop looks at.
last_before :
    (sql q s : Text) (start : ℕ)
    → sql ≡ q ++ s
    → start ≡ length q
    → head? (reverse (take start sql)) ≡ last_from none q
last_before sql q s start e l =
    ap (λ u. head? (reverse u)) (ap (take start) e ∙ take_prefix q s start l)
    ∙ ap head? (sym (append-nil (reverse q)))
    ∙ last-reverse q []

-- What the loop puts out of the text between two calls.
between :
    (sql p b s : Text) (start last : ℕ)
    → sql ≡ p ++ (b ++ s)
    → start ≡ length p + length b
    → last ≤ length p
    → take (start - last) (drop last sql) ≡ drop last p ++ b
between sql p b s start last e l h =
    ap (λ u. take (start - last) (drop last u)) (e ∙ sym (append_assoc p b s))
    ∙ ap (take (start - last)) (drop_short (p ++ b) s last (omega (arith, length-append p b)))
    ∙ take_prefix (drop last (p ++ b)) s (start - last)
        (omega (arith, length-drop last (p ++ b), length-append p b))
    ∙ drop_short p b last h

qualify_from-qualified_text :
    (sql target p : Text) (position last : ℕ) (out : Text) (ms : List Match) (rest : Text)
    → sql ≡ p ++ replaced whole ms rest
    → position ≡ length p
    → last ≤ length p
    → qualify_from sql target last out (find_iter position ms)
      ≡ out ++ (drop last p ++ qualified_text target (last_from none p) ms rest)
qualify_from-qualified_text sql target p position last out [] rest e l h =
    ap (λ s. out ++ drop last s) e ∙ ap (out ++◌) (drop_short p rest last h)
qualify_from-qualified_text sql target p position last out (m ∷ ms) rest e l h =
    let b = m.before in
    let w = whole m in
    let n = p ++ (b ++ w) in
    let start = position + length b in
    let all_after = replaced whole ms rest in
    let split : sql ≡ n ++ all_after = e ∙ sym (regroup p b w all_after) in
    let ended : start + length w ≡ length n =
      omega (arith, length-append p (b ++ w), length-append b w) in
    let seen : head? (reverse (take start sql)) ≡ last_from (last_from none p) b =
      last_before sql (p ++ b) (w ++ all_after) start (e ∙ sym (append_assoc p b (w ++ all_after)))
        (omega (arith, length-append p b))
      ∙ last_from-append none p b in
    let rest_text = qualified_text target (last_from (last_from none p) (b ++ w)) ms rest in
    let next : qualified_text target (last_from none n) ms rest ≡ rest_text =
      ap (λ c. qualified_text target c ms rest) (last_from-append none p (b ++ w)) in
    elim (Bool-cases (is_part (last_from (last_from none p) b))) [
      | inl part ↦
          rw (ap is_part seen ∙ part, qualify_from)
            (rw (part, qualified_match)
              (qualify_from-qualified_text sql target n (start + length w) last out ms rest split
                  ended (omega (arith, length-append p (b ++ w)))
                ∙ ap₂ (λ u v. out ++ (u ++ v)) (drop_short p (b ++ w) last h) next
                ∙ ap (out ++◌) (regroup (drop last p) b w rest_text)))
      | inr call ↦
          rw (ap is_part seen ∙ call, qualify_from)
            (rw (call, qualified_match)
              (qualify_from-qualified_text sql target n (start + length w) (start + length w)
                  (out ++ (take (start - last) (drop last sql) ++ (target ++ codes "("))) ms rest
                  split ended (omega arith)
                ∙ ap₂ (λ u v. (out ++ (u ++ (target ++ codes "("))) ++ v)
                    (between sql p b (w ++ all_after) start last e (omega arith) h)
                    (ap₂ ◌++◌ (drop_of_length-le (start + length w) n (omega arith)) next)
                ∙ append_assoc out ((drop last p ++ b) ++ (target ++ codes "(")) rest_text
                ∙ ap (out ++◌) (
                    append_assoc (drop last p ++ b) (target ++ codes "(") rest_text
                    ∙ append_assoc (drop last p) b ((target ++ codes "(") ++ rest_text))))
    ]

-- The calls of a function are qualified, and no other text is changed: a match is left alone if the
-- character before it is a dot, a double quote or an identifier's, and every other is replaced by the
-- qualified name with its bracket. The offsets of the loop are those of the text, whatever the matches.
pub qualify_function-qualified_text :
    (r : Regexes) (laws : RegexLaws r) (sql source target : Text)
    → qualify_function r sql source target
      ≡ qualified_text target none
          (r.matches (call_pattern r source) sql).0
          (r.matches (call_pattern r source) sql).1
unfolding qualify_function
qualify_function-qualified_text r laws sql source target =
    let (ms, rest) = r.matches (call_pattern r source) sql in
    qualify_from-qualified_text sql target [] 0 0 [] ms rest
      (sym (laws.matches_cover (call_pattern r source) sql)) refl (omega arith)
