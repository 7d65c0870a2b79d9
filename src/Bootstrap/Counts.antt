-- ===== src/Bootstrap/Counts.antt =====
-- `first_count`: the count that a schema check reads.
use exa_postgres_interface.Base.{
  ℕ, ◌<◌, ◌^◌, false, List, ◌∷◌, some, ◌==◌, ◌≡◌, arith, All, All-mono,
}
use exa_postgres_interface.Base.Int.{pos}
use exa_postgres_interface.Base.Text.{
  trim_of_All, split_once_of_All, to_decimal-All, is_whitespace, show_ℤ, to_decimal, parse_i64,
  parse_i64-show_ℤ,
}
use exa_postgres_interface.Crates.{Crates}
use exa_postgres_interface.Cursor.{ExasolColumn, TextRow}
use exa_postgres_interface.Exasol.{ExasolResult}
use exa_postgres_interface.Session.{ExasolOutcome}
use exa_postgres_interface.Bootstrap.{parse_count_string, FirstColumn, count_value, first_count}

parse_count_string-to_decimal :
    (n : ℕ) → n < 2 ^ 63 → parse_count_string (to_decimal n) ≡ ExasolResult.ok (pos n)
unfolding parse_count_string is_whitespace show_ℤ
parse_count_string-to_decimal n h =
    let blanks : All (λ c. is_whitespace c ≡ false) (to_decimal n) =
      All-mono (λ c d. let e : is_whitespace c ≡ false = ground (arith, d) in e) (to_decimal n)
        (to_decimal-All n) in
    let dots : All (λ c. (c == b'.') ≡ false) (to_decimal n) =
      All-mono (λ c d. let e : (c == b'.') ≡ false = ground (arith, d) in e) (to_decimal n)
        (to_decimal-All n) in
    let parsed : parse_i64 (to_decimal n) ≡ some (pos n) = parse_i64-show_ℤ (pos n) h in
    rw (trim_of_All (to_decimal n) blanks, parse_count_string)
      (rw (split_once_of_All b'.' (to_decimal n) dots)
        (rw (trim_of_All (to_decimal n) blanks) (rw parsed)))

-- A count that is printed in decimal, in the first cell of a result in text, is read as the count.
pub first_count-show_ℤ :
    (k : Crates) (first_column : k.RecordBatch → FirstColumn) (column : ExasolColumn k)
    (columns : List (ExasolColumn k)) (cells : TextRow) (rows : List TextRow) (n : ℕ)
    → n < 2 ^ 63
    → first_count k first_column
        (ExasolOutcome.typed_rows (column ∷ columns) ((some (show_ℤ (pos n)) ∷ cells) ∷ rows))
      ≡ ExasolResult.ok n
unfolding first_count count_value
first_count-show_ℤ k first_column column columns cells rows n h =
    rw (parse_count_string-to_decimal n h, first_count, count_value)
