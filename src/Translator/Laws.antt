-- ===== src/Translator/Laws.antt =====
-- What the rewrites of src/translator.rs rely on of the crate `regex`, by its documentation.
use exa_postgres_interface.Base.{
  if◌then◌else◌, [], ◌∷◌, ◌++◌, List, ◌≡◌, refl, ap₂, Bool, true, false, not, ◌&&◌, ◌||◌, any,
}
use exa_postgres_interface.Base.Text.{Text, codes, contains, text_eq, to_ascii_lowercase}
use exa_postgres_interface.Policy.Regexes.{Regexes, Match}
use exa_postgres_interface.Translator.Constants.{reserved_alias_words}
use exa_postgres_interface.Translator.Rewrites.{cap, replaced, quoted_alias}

-- A match as it stands in the text.
abbrev pub whole : Match → Text
whole m = cap m (codes "0")

pub record RegexLaws (r : Regexes) : Type 0 where
  -- The matches with what is between them are the text.
  pub matches_cover :
      (pattern sql : Text)
      → replaced whole (r.matches pattern sql).0 (r.matches pattern sql).1 ≡ sql
  -- Where nothing matches, nothing is replaced.
  pub replace_none :
      (pattern sql by : Text) → (r.matches pattern sql).0 ≡ [] → r.replace_all pattern sql by ≡ sql

-- A name behind AS that `quote_reserved_aliases` leaves alone: a type of a cast, which a bracket
-- follows, or a word that is not reserved.
unfoldable pub is_plain_alias : Match → Bool
unfolding contains to_ascii_lowercase
is_plain_alias m =
    contains (cap m (codes "2")) (codes ")")
    || contains (cap m (codes "2")) (codes "(")
    || not (any (text_eq (to_ascii_lowercase (cap m (codes "1")))) reserved_alias_words)

abbrev pub all_plain : List Match → Bool
all_plain [] = true
all_plain (m ∷ ms) = is_plain_alias m && all_plain ms

kept_branch :
    (closes opens reserved : Bool) (quoted plain : Text)
    → (closes || opens || not reserved) ≡ true
    → (if closes || opens then plain else if reserved then quoted else plain) ≡ plain
kept_branch true opens reserved quoted plain h = refl
kept_branch false true reserved quoted plain h = refl
kept_branch false false true quoted plain h = absurd cc
kept_branch false false false quoted plain h = refl

and_parts : (a b : Bool) → (a && b) ≡ true → (a ≡ true) × (b ≡ true)
and_parts true b h = (refl, h)
and_parts false b h = absurd cc

pub quoted_alias-plain : (m : Match) → is_plain_alias m ≡ true → quoted_alias m ≡ whole m
unfolding is_plain_alias quoted_alias contains to_ascii_lowercase
quoted_alias-plain m h =
    kept_branch (contains (cap m (codes "2")) (codes ")"))
      (contains (cap m (codes "2")) (codes "("))
      (any (text_eq (to_ascii_lowercase (cap m (codes "1")))) reserved_alias_words) _ (whole m) h

pub replaced-all_plain :
    (ms : List Match) (rest : Text)
    → all_plain ms ≡ true
    → replaced quoted_alias ms rest ≡ replaced whole ms rest
replaced-all_plain [] rest h = refl
replaced-all_plain (m ∷ ms) rest h =
    let (plain, others) = and_parts (is_plain_alias m) (all_plain ms) h in
    ap₂ (λ by more. m.before ++ (by ++ more)) (quoted_alias-plain m plain)
      (replaced-all_plain ms rest others)

pub replaced-none :
    (f : Match → Text) (ms : List Match) (rest : Text)
    → ms ≡ []
    → replaced f ms rest ≡ replaced whole ms rest
replaced-none f [] rest h = refl
replaced-none f (m ∷ ms) rest h = absurd cc
