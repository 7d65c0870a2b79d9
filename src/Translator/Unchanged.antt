-- ===== src/Translator/Unchanged.antt =====
-- What reaches the database of a statement whose labels the gateway does not fold.
use exa_postgres_interface.Base.{[], Bool, true, false, not, ◌≡◌, refl, ap, ◌∙◌, ok}
use exa_postgres_interface.Base.Text.{Text}
use exa_postgres_interface.Policy.Regexes.{Regexes}
use exa_postgres_interface.Session.Cursors.{translate_client_sql}
use exa_postgres_interface.Session.Statements.{should_fold_labels}
use exa_postgres_interface.Translator.Laws.{RegexLaws, all_plain, replaced-all_plain, replaced-none}
use exa_postgres_interface.Translator.Detection.{is_exasol_passthrough_sql}
use exa_postgres_interface.Translator.Patterns.{
  exasol_catalog_prefix_re, alias_re, redundant_offset_re,
}
use exa_postgres_interface.Translator.Pipeline.{
  Transpiled, Translation, is_passthrough_query, translate_postgres_to_exasol, client_translation,
  gateway_translator, passed,
}
use exa_postgres_interface.Translator.Rewrites.{
  without_catalog, quote_reserved_aliases, strip_exasol_catalog_prefix, strip_redundant_offset,
  quoted_alias,
}

true_of_not : (b : Bool) → not b ≡ false → b ≡ true
true_of_not true h = refl
true_of_not false h = absurd cc

module _ (r : Regexes) (laws : RegexLaws r) where
  strip_exasol_catalog_prefix_none :
      (sql : Text)
      → (r.matches exasol_catalog_prefix_re sql).0 ≡ []
      → strip_exasol_catalog_prefix r sql ≡ sql
  unfolding strip_exasol_catalog_prefix
  strip_exasol_catalog_prefix_none sql none_there =
      replaced-none without_catalog (r.matches exasol_catalog_prefix_re sql).0
        (r.matches exasol_catalog_prefix_re sql).1 none_there
      ∙ laws.matches_cover exasol_catalog_prefix_re sql

  quote_reserved_aliases_plain :
      (sql : Text)
      → all_plain (r.matches alias_re sql).0 ≡ true
      → quote_reserved_aliases r sql ≡ sql
  unfolding quote_reserved_aliases quoted_alias
  quote_reserved_aliases_plain sql plain =
      replaced-all_plain (r.matches alias_re sql).0 (r.matches alias_re sql).1 plain
      ∙ laws.matches_cover alias_re sql

  passed_lem :
      (sql : Text)
      → all_plain (r.matches alias_re sql).0 ≡ true
      → (r.matches redundant_offset_re sql).0 ≡ []
      → passed r sql ≡ Translation.translated sql
  unfolding passed strip_redundant_offset
  passed_lem sql plain no_offset =
      ap (λ s. Translation.translated (r.replace_all redundant_offset_re s []))
        (quote_reserved_aliases_plain sql plain)
      ∙ ap Translation.translated (laws.replace_none redundant_offset_re sql [] no_offset)

  module _ (transpile : Text → Transpiled) (sql : Text) where
    translate_passthrough :
        is_exasol_passthrough_sql r (strip_exasol_catalog_prefix r sql) ≡ true
        → (r.matches exasol_catalog_prefix_re sql).0 ≡ []
        → all_plain (r.matches alias_re sql).0 ≡ true
        → (r.matches redundant_offset_re sql).0 ≡ []
        → translate_postgres_to_exasol r transpile sql ≡ Translation.translated sql
    unfolding translate_postgres_to_exasol
    translate_passthrough passes no_prefix plain no_offset = rw passes (
        ap (passed r) (strip_exasol_catalog_prefix_none sql no_prefix)
        ∙ passed_lem sql plain no_offset)

-- A statement whose labels are not folded reaches the database as the client wrote it, whether the
-- translation is on or off, if the source's patterns find no prefix of the catalog, no unquoted alias
-- that is a reserved word and no offset of zero or NULL in it.
pub translate_client_sql-should_fold_labels :
    (r : Regexes) (laws : RegexLaws r) (transpile : Text → Transpiled) (enabled : Bool) (sql : Text)
    → should_fold_labels (gateway_translator r transpile enabled) sql ≡ false
    → (r.matches exasol_catalog_prefix_re sql).0 ≡ []
    → all_plain (r.matches alias_re sql).0 ≡ true
    → (r.matches redundant_offset_re sql).0 ≡ []
    → translate_client_sql (gateway_translator r transpile enabled) sql ≡ ok sql
unfolding translate_client_sql should_fold_labels gateway_translator is_passthrough_query
translate_client_sql-should_fold_labels r laws transpile false sql unfolded no_prefix plain
      no_offset =
    refl
translate_client_sql-should_fold_labels r laws transpile true sql unfolded no_prefix plain
      no_offset =
    ap client_translation (
      translate_passthrough r laws transpile sql (true_of_not _ unfolded) no_prefix plain no_offset)
