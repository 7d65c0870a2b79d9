-- ===== src/Translator/Rewrites.antt =====
-- The rewrites of src/translator.rs, each of which replaces the matches of one pattern. A closure of
-- `replace_all` is the argument of `replace_all_with`; offsets count code points.
use exa_postgres_interface.Base.{
  ℕ, ◌+◌, ◌-◌, ◌==◌, Bool, true, false, ◌||◌, any, List, [], ◌∷◌, ◌++◌, reverse, head?, Option,
  none, some, length, take, drop, if◌then◌else◌,
}
use exa_postgres_interface.Base.Text.{
  Text, codes, contains, text_eq, trim, to_ascii_lowercase, to_ascii_uppercase,
  eq_ignore_ascii_case,
}
use exa_postgres_interface.Policy.Regexes.{Regexes, Match}
use exa_postgres_interface.Translator.Constants.{reserved_alias_words}
use exa_postgres_interface.Translator.Detection.{is_ident, regex_match_re, regex_not_match_re}
use exa_postgres_interface.Translator.Patterns.{
  quoted_qualified_identifier_re, relation_alias_re, catalog_relation_re, ilike_re,
  qualified_operator_re, obj_description_re, regclass_literal_re, quote_ident_re,
  exasol_catalog_prefix_re, alias_re, redundant_offset_re,
}

-- `map_or("", …)` on a group.
abbrev pub or_empty : Option Text → Text
or_empty none = []
or_empty (some s) = s

abbrev pub replaced : (Match → Text) → List Match → Text → Text
replaced f [] rest = rest
replaced f (m ∷ ms) rest = m.before ++ (f m ++ replaced f ms rest)

-- `Regex::replace_all` with a closure.
abbrev pub replace_all_with : Regexes → Text → (Match → Text) → Text → Text
replace_all_with r pattern f sql = let (ms, rest) = r.matches pattern sql in replaced f ms rest

-- `&cap[name]`, or the empty text where the group takes no part.
abbrev pub cap : Match → Text → Text
cap m name = or_empty (m.group name)

abbrev pub unquoted_relation : Match → Text
unquoted_relation m = cap m (codes "1") ++ (cap m (codes "rel") ++ cap m (codes "3"))

unfoldable pub normalize_ansi_quoted_postgres_identifiers : Regexes → Text → Text
normalize_ansi_quoted_postgres_identifiers r sql =
    let unquoted = r.replace_all quoted_qualified_identifier_re sql (codes "$1.$2") in
    let aliased = r.replace_all relation_alias_re unquoted (codes "$1 $2") in
    replace_all_with r catalog_relation_re unquoted_relation aliased

unfoldable pub qualified_relation : Match → Text
unfolding to_ascii_uppercase eq_ignore_ascii_case
qualified_relation m =
    let relation = cap m (codes "rel") in
    let upper = to_ascii_uppercase relation in
    let quoted =
      eq_ignore_ascii_case relation (codes "pg_foreign_server")
      || eq_ignore_ascii_case relation (codes "pg_foreign_data_wrapper") in
    cap m (codes "1")
    ++ ((if quoted
          then codes "PG_CATALOG.\"" ++ (upper ++ codes "\"")
          else codes "PG_CATALOG." ++ upper)
        ++ cap m (codes "3"))

unfoldable pub rewrite_catalog_relations : Regexes → Text → Text
unfolding qualified_relation
rewrite_catalog_relations r sql = replace_all_with r catalog_relation_re qualified_relation sql

unfoldable pub object_description : Match → Text
unfolding trim eq_ignore_ascii_case
object_description m =
    let classoid =
      if eq_ignore_ascii_case (cap m (codes "2")) (codes "pg_namespace")
      then codes "2615"
      else codes "1259" in
    codes "(SELECT D.DESCRIPTION FROM PG_CATALOG.PG_DESCRIPTION D WHERE D.OBJOID = "
    ++ (trim (cap m (codes "1"))
        ++ (codes " AND D.CLASSOID = " ++ (classoid ++ codes " AND D.OBJSUBID = 0)")))

unfoldable pub rewrite_object_description : Regexes → Text → Text
unfolding object_description
rewrite_object_description r sql = replace_all_with r obj_description_re object_description sql

unfoldable pub rewrite_regex_operators : Regexes → Text → Text
rewrite_regex_operators r sql =
    let rewritten = r.replace_all regex_not_match_re sql (codes "REGEXP_INSTR($1, $2) = 0") in
    r.replace_all regex_match_re rewritten (codes "REGEXP_INSTR($1, $2) > 0")

-- The part behind the last dot: `rsplit('.').next()`.
abbrev pub last_part_from : Text → Text → Text
last_part_from current [] = reverse current
last_part_from current (c ∷ s) = last_part_from (if c == b'.' then [] else c ∷ current) s

abbrev pub class_oid : Text → Text
class_oid name =
    if text_eq name (codes "pg_class")
    then codes "1259"
    else if text_eq name (codes "pg_database")
    then codes "1262"
    else if text_eq name (codes "pg_namespace")
    then codes "2615"
    else if text_eq name (codes "pg_proc")
    then codes "1255"
    else if text_eq name (codes "pg_type")
    then codes "1247"
    else codes "0"

unfoldable pub regclass_literal : Match → Text
unfolding to_ascii_lowercase
regclass_literal m = class_oid (to_ascii_lowercase (last_part_from [] (cap m (codes "1"))))

unfoldable pub rewrite_regclass_literals : Regexes → Text → Text
unfolding regclass_literal
rewrite_regclass_literals r sql = replace_all_with r regclass_literal_re regclass_literal sql

abbrev pub plain_operator : Match → Text
plain_operator m = codes " " ++ (cap m (codes "1") ++ codes " ")

unfoldable pub rewrite_qualified_operators : Regexes → Text → Text
rewrite_qualified_operators r sql = replace_all_with r qualified_operator_re plain_operator sql

abbrev pub without_catalog : Match → Text
without_catalog m = cap m (codes "1") ++ cap m (codes "2")

unfoldable pub strip_exasol_catalog_prefix : Regexes → Text → Text
strip_exasol_catalog_prefix r sql = replace_all_with r exasol_catalog_prefix_re without_catalog sql

unfoldable pub quoted_ident : Match → Text
unfolding trim
quoted_ident m =
    codes "('\"' || REPLACE(" ++ (trim (cap m (codes "1")) ++ codes ", '\"', '\"\"') || '\"')")

unfoldable pub rewrite_quote_ident : Regexes → Text → Text
unfolding quoted_ident
rewrite_quote_ident r sql = replace_all_with r quote_ident_re quoted_ident sql

unfoldable pub quoted_alias : Match → Text
unfolding contains to_ascii_lowercase
quoted_alias m =
    let ident = cap m (codes "1") in
    let trailing = cap m (codes "2") in
    if contains trailing (codes ")") || contains trailing (codes "(")
    then cap m (codes "0")
    else if any (text_eq (to_ascii_lowercase ident)) reserved_alias_words
    then codes "AS \"" ++ (ident ++ (codes "\"" ++ trailing))
    else cap m (codes "0")

unfoldable pub quote_reserved_aliases : Regexes → Text → Text
unfolding quoted_alias
quote_reserved_aliases r sql = replace_all_with r alias_re quoted_alias sql

unfoldable pub rewrite_ilike : Regexes → Text → Text
rewrite_ilike r sql = r.replace_all ilike_re sql (codes "UPPER($1) LIKE UPPER($2)")

unfoldable pub strip_redundant_offset : Regexes → Text → Text
strip_redundant_offset r sql = r.replace_all redundant_offset_re sql []

unfoldable pub qualify_schema_prefix : Regexes → Text → Text → Text → Text
qualify_schema_prefix r sql source target =
    r.replace_all (codes "(?i)\\b" ++ (r.escape source ++ codes "\\.")) sql (target ++ codes ".")

-- `find_iter`: where the matches start and end.
abbrev pub find_iter : ℕ → List Match → List (ℕ × ℕ)
find_iter position [] = []
find_iter position (m ∷ ms) =
    let start = position + length m.before in
    let end = start + length (cap m (codes "0")) in (start, end) ∷ find_iter end ms

-- Whether the character before a match keeps it from being a call of the function.
abbrev pub is_part : Option ℕ → Bool
is_part none = false
is_part (some c) = c == b'.' || c == b'"' || is_ident (some c)

-- The loop of `qualify_function`.
abbrev pub qualify_from : Text → Text → ℕ → Text → List (ℕ × ℕ) → Text
qualify_from sql target last out [] = out ++ drop last sql
qualify_from sql target last out ((start, end) ∷ matches) =
    elim (is_part (head? (reverse (take start sql)))) [
      | true ↦ qualify_from sql target last out matches
      | false ↦
          qualify_from sql target end
            (out ++ (take (start - last) (drop last sql) ++ (target ++ codes "("))) matches
    ]

abbrev pub call_pattern : Regexes → Text → Text
call_pattern r source = codes "(?i)\\b" ++ (r.escape source ++ codes "\\s*\\(")

unfoldable pub qualify_function : Regexes → Text → Text → Text → Text
qualify_function r sql source target =
    qualify_from sql target 0 [] (find_iter 0 (r.matches (call_pattern r source) sql).0)
