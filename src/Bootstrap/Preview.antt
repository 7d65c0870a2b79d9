-- ===== src/Bootstrap/Preview.antt =====
-- `preview_statement`: the length of a preview.
use exa_postgres_interface.Base.{
  leb, ◌≤◌, length, take, length-take, length-append, if◌then◌else◌, Bool-cases, inl, inr, arith,
  ◌++◌,
}
use exa_postgres_interface.Base.Text.{Text, codes, split_whitespace}
use exa_postgres_interface.Bootstrap.{preview_statement, join}

length_cut : (t : Text) → length (if leb (length t) 80 then t else take 77 t ++ codes "...") ≤ 80
length_cut t = elim (Bool-cases (leb (length t) 80)) [
  | inl short ↦ rw short (ground arith)
  | inr long ↦ rw long (omega (arith, length-append (take 77 t) (codes "..."), length-take 77 t))
]

-- A preview has 80 characters at most.
pub length-preview_statement : (sql : Text) → length (preview_statement sql) ≤ 80
unfolding preview_statement
length-preview_statement sql = length_cut (join (codes " ") (split_whitespace sql))
