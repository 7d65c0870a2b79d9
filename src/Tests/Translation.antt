-- ===== src/Tests/Translation.antt =====
-- A concrete search for fixed words in place of the regex crate, and instances of the theorems on the
-- translator.
use exa_postgres_interface.Base.{
  ℕ, zero, suc, true, false, [], ◌∷◌, ◌++◌, List, Option, none, some, Option-cases, inl, inr, ok,
  ◌≡◌, refl, sym, ap, ◌∙◌, if◌then◌else◌, arith,
}
use exa_postgres_interface.Base.Text.{Text, codes, text_eq, text_length, strip_prefix, split_once}
use exa_postgres_interface.Policy.Regexes.{Regexes, Match}
use exa_postgres_interface.Session.Cursors.{translate_client_sql}
use exa_postgres_interface.Translator.Detection.Words.{strip_prefix-append}
use exa_postgres_interface.Session.Statements.{should_fold_labels}
use exa_postgres_interface.Translator.Laws.{RegexLaws, whole, is_plain_alias}
use exa_postgres_interface.Translator.Patterns.{alias_re}
use exa_postgres_interface.Translator.Pipeline.{Transpiled, gateway_translator}
use exa_postgres_interface.Translator.Qualified.{qualified_text, qualify_function-qualified_text}
use exa_postgres_interface.Translator.Rewrites.{replaced, call_pattern, qualify_function}
use exa_postgres_interface.Translator.Unchanged.{translate_client_sql-should_fold_labels}

split_once_lem : (p s a b : Text) → split_once p s ≡ some (a, b) → s ≡ a ++ (p ++ b)
unfolding split_once
split_once_lem p [] a b e = elim (Option-cases (strip_prefix p [])) [
  | inl f ↦ absurd (ground (arith, e, f))
  | inr (rest, f) ↦
      let parts : (a ≡ []) × (b ≡ rest) = ground (arith, e, f) in
      strip_prefix-append p [] rest f ∙ sym (rw (parts.0, parts.1) refl)
]
split_once_lem p (c ∷ s) a b e = elim (Option-cases (strip_prefix p (c ∷ s))) [
  | inr (rest, f) ↦
      let parts : (a ≡ []) × (b ≡ rest) = ground (arith, e, f) in
      strip_prefix-append p (c ∷ s) rest f ∙ sym (rw (parts.0, parts.1) refl)
  | inl f ↦ elim (Option-cases (split_once p s)) [
    | inl g ↦ absurd (ground (arith, e, f, g))
    | inr ((a', b'), g) ↦
        let parts : (a ≡ c ∷ a') × (b ≡ b') = ground (arith, e, f, g) in
        ap (c ∷◌) (split_once_lem p s a' b' g) ∙ sym (rw (parts.0, parts.1) refl)
  ]
]

-- The words that are looked for, with their first group.
abbrev word : Text → Option (Text × Text)
word pattern =
    if text_eq pattern alias_re
    then some (codes "as total", codes "total")
    else if text_eq pattern (codes "(?i)\\bformat_type\\s*\\(")
    then some (codes "format_type(", [])
    else none

abbrev found_match : Text → Text × Text → Match
found_match before (text, first) = record {
  before = before;
  group = λ name.
      if text_eq name (codes "0")
      then some text
      else if text_eq name (codes "1")
      then some first
      else none;
}

abbrev found : ℕ → Text × Text → Text → List Match × Text
unfolding split_once
found zero w sql = ([], sql)
found (suc more) w sql = elim (split_once w.0 sql) [
  | none ↦ ([], sql)
  | some (before, behind) ↦
      let (ms, rest) = found more w behind in (found_match before w ∷ ms, rest)
]

abbrev found_words : Text → Text → List Match × Text
unfolding found
found_words pattern sql = elim (word pattern) [
  | none ↦ ([], sql)
  | some w ↦ found (text_length sql) w sql
]

abbrev words : Regexes
unfolding found_words
words = record {
  is_match = λ pattern sql. false;
  captures = λ pattern sql. none;
  replace_all =
      λ pattern sql by. let (ms, rest) = found_words pattern sql in replaced (λ m. by) ms rest;
  matches = found_words;
  escape = λ text. text;
}

found_cover :
    (n : ℕ) (text group sql : Text)
    → replaced whole (found n (text, group) sql).0 (found n (text, group) sql).1 ≡ sql
unfolding found
found_cover zero text group sql = refl
found_cover (suc n) text group sql = elim (Option-cases (split_once text sql)) [
  | inl e ↦ rw (e, found) refl
  | inr ((before, behind), e) ↦
      rw (e, found)
        (ap (λ u. before ++ (text ++ u)) (found_cover n text group behind)
          ∙ sym (split_once_lem text sql before behind e))
]

found_words_cover :
    (pattern sql : Text)
    → replaced whole (found_words pattern sql).0 (found_words pattern sql).1 ≡ sql
unfolding found_words
found_words_cover pattern sql = elim (Option-cases (word pattern)) [
  | inl e ↦ rw (e, found_words) refl
  | inr ((text, group), e) ↦ rw (e, found_words) (found_cover (text_length sql) text group sql)
]

replaced_nothing :
    (f g : Match → Text) (ms : List Match) (rest : Text)
    → ms ≡ []
    → replaced f ms rest ≡ replaced g ms rest
replaced_nothing f g [] rest e = refl
replaced_nothing f g (m ∷ ms) rest e = absurd cc

words-RegexLaws : RegexLaws words
unfolding words found_words
words-RegexLaws = record {
  matches_cover = found_words_cover;
  replace_none = λ pattern sql by e.
      replaced_nothing (λ m. by) whole (found_words pattern sql).0 (found_words pattern sql).1 e
      ∙ found_words_cover pattern sql;
}

abbrev untouched : Text → Transpiled
untouched sql = Transpiled.failed (codes "not transpiled")

abbrev query : Text
query = codes "select a as total from t"

translate_client_sql-should_fold_labels_example :
    translate_client_sql (gateway_translator words untouched true) query ≡ ok query
unfolding should_fold_labels gateway_translator words is_plain_alias
translate_client_sql-should_fold_labels_example =
    translate_client_sql-should_fold_labels words words-RegexLaws untouched true query refl refl
      refl refl

abbrev calls : Text
calls = codes "a.format_type(x), format_type(y)"

qualify_function-qualified_text_example :
    qualify_function words calls (codes "format_type") (codes "PG_CATALOG.FORMAT_TYPE")
    ≡ qualified_text
        (codes "PG_CATALOG.FORMAT_TYPE")
        none
        (words.matches (call_pattern words (codes "format_type")) calls).0
        (words.matches (call_pattern words (codes "format_type")) calls).1
qualify_function-qualified_text_example =
    qualify_function-qualified_text words words-RegexLaws calls (codes "format_type")
      (codes "PG_CATALOG.FORMAT_TYPE")

calls_qualified :
    qualify_function words calls (codes "format_type") (codes "PG_CATALOG.FORMAT_TYPE")
    ≡ codes "a.format_type(x), PG_CATALOG.FORMAT_TYPE(y)"
unfolding qualify_function found split_once words found_words
calls_qualified = refl
