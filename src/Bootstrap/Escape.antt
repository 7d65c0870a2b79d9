-- ===== src/Bootstrap/Escape.antt =====
-- `toml_escape`: a value in a TOML basic string.
use exa_postgres_interface.Base.{
  ℕ, Bool, true, false, not, ◌&&◌, ◌||◌, ltb, if◌then◌else◌, ◌==◌, ==_iff, [], ◌∷◌, ◌++◌, Option,
  none, some, Bool-cases, inl, inr, ◌≡◌, refl, arith,
}
use exa_postgres_interface.Base.Text.{Text, replace_char}
use exa_postgres_interface.Bootstrap.{toml_escape}

-- The control characters that TOML does not allow in a basic string.
abbrev pub is_control : ℕ → Bool
is_control c = (ltb c 32 && not (c == 9)) || c == 127

abbrev pub all_printed : Text → Bool
all_printed [] = true
all_printed (c ∷ s) = not (is_control c) && all_printed s

abbrev after : ℕ → Option (Text × Text) → Option (Text × Text)
after c none = none
after c (some (value, rest)) = some (c ∷ value, rest)

-- What TOML reads behind the opening quote of a basic string: the value up to the closing quote and
-- what follows it. Of the escapes it knows those of a quote and of a backslash.
abbrev pub read_basic : Bool → Text → Option (Text × Text)
read_basic escaped [] = none
read_basic true (c ∷ s) = if c == b'"' || c == b'\\' then after c (read_basic false s) else none
read_basic false (c ∷ s) =
    if c == b'"'
    then some ([], s)
    else if c == b'\\'
    then read_basic true s
    else if is_control c
    then none
    else after c (read_basic false s)

-- A value without control characters that is escaped and put in quotes is what TOML reads back,
-- whatever quotes and backslashes it has, and the text behind the quote is left.
pub read_basic-toml_escape :
    (value rest : Text)
    → all_printed value ≡ true
    → read_basic false (toml_escape value ++ b'"' ∷ rest) ≡ some (value, rest)
unfolding toml_escape replace_char
read_basic-toml_escape [] rest h = refl
read_basic-toml_escape (c ∷ value) rest h =
    let ih = read_basic-toml_escape value rest (ground (arith, h)) in
    elim (Bool-cases (c == b'\\')) [
      | inl slash ↦ rw (slash, replace_char) (rw ih (ground (arith, (==_iff c b'\\').0 slash)))
      | inr other ↦ elim (Bool-cases (c == b'"')) [
        | inl q ↦
            rw (other, replace_char)
              (rw (q, replace_char) (rw ih (ground (arith, (==_iff c b'"').0 q))))
        | inr plain ↦
            let printed : is_control c ≡ false = ground (arith, h) in
            rw (other, replace_char)
              (rw (plain, replace_char) (rw plain (rw other (rw printed (rw ih)))))
      ]
    ]
