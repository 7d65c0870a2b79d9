-- ===== src/Translator/Pipeline.antt =====
-- `translate_postgres_to_exasol` and `is_passthrough_query` of src/translator.rs, and the interface of
-- the session's handlers that they fill. The crate polyglot-sql is the parameter Transpiler.
use exa_postgres_interface.Base.{Bool, not, List, ◌++◌, if◌then◌else◌, Result, ok, err}
use exa_postgres_interface.Base.Text.{Text, codes, text_eq}
use exa_postgres_interface.Bootstrap.{join}
use exa_postgres_interface.Policy.Regexes.{Regexes}
use exa_postgres_interface.Session.{Translator}
use exa_postgres_interface.Translator.Catalog.{rewrite_pg_catalog, rewrite_sqlglot_edge_cases}
use exa_postgres_interface.Translator.Detection.{is_exasol_passthrough_sql}
use exa_postgres_interface.Translator.Known.{rewrite_known_metadata_query}
use exa_postgres_interface.Translator.Rewrites.{
  normalize_ansi_quoted_postgres_identifiers, quote_reserved_aliases, rewrite_ilike,
  strip_exasol_catalog_prefix, strip_redundant_offset,
}

-- What `polyglot_sql::transpile_by_name` gives for PostgreSQL and Exasol.
pub data Transpiled : Type 0 where
  statements : List Text → Transpiled
  failed : (message : Text) → Transpiled

-- `Result<String, TranslationError>`.
pub data Translation : Type 0 where
  translated : Text → Translation
  translation_error : (message : Text) → Translation

-- A statement that passes to Exasol as it is.
unfoldable pub passed : Regexes → Text → Translation
unfolding quote_reserved_aliases strip_redundant_offset
passed r sql = Translation.translated (strip_redundant_offset r (quote_reserved_aliases r sql))

-- A query that is known as a whole.
abbrev pub known : Regexes → Text → Translation
unfolding quote_reserved_aliases rewrite_ilike strip_redundant_offset
known r query =
    Translation.translated
      (strip_redundant_offset r (quote_reserved_aliases r (rewrite_ilike r query)))

abbrev pub transpiled : Regexes → Transpiled → Translation
unfolding rewrite_sqlglot_edge_cases quote_reserved_aliases rewrite_ilike strip_redundant_offset
transpiled r (Transpiled.failed message) = Translation.translation_error message
transpiled r (Transpiled.statements parts) = Translation.translated (
    strip_redundant_offset r (
      quote_reserved_aliases r
        (rewrite_ilike r (rewrite_sqlglot_edge_cases r (join (codes "; ") parts)))))

-- The error of `translate_client_sql`, with the words of `TranslationError`.
abbrev pub client_translation : Translation → Result Text
client_translation (Translation.translated sql) = ok sql
client_translation (Translation.translation_error message) = err (record {
  sqlstate = codes "XX000";
  message = codes "PostgreSQL-to-Exasol SQL translation failed: " ++ message;
})

module _ (r : Regexes) (transpile : Text → Transpiled) where
  unfoldable pub is_passthrough_query : Text → Bool
  unfolding strip_exasol_catalog_prefix is_exasol_passthrough_sql
  is_passthrough_query sql = is_exasol_passthrough_sql r (strip_exasol_catalog_prefix r sql)

  unfoldable pub translate_postgres_to_exasol : Text → Translation
  unfolding strip_exasol_catalog_prefix is_exasol_passthrough_sql passed known transpiled
      rewrite_known_metadata_query normalize_ansi_quoted_postgres_identifiers rewrite_pg_catalog
  translate_postgres_to_exasol client_sql =
      let sql = strip_exasol_catalog_prefix r client_sql in
      if is_exasol_passthrough_sql r sql
      then passed r sql
      else let normalized = normalize_ansi_quoted_postgres_identifiers r sql in
        let known_metadata_query = rewrite_known_metadata_query r normalized in
        if not (text_eq known_metadata_query normalized)
        then known r known_metadata_query
        else transpiled r (transpile (rewrite_pg_catalog r normalized))

  unfoldable pub gateway_translator : Bool → Translator
  unfolding is_passthrough_query translate_postgres_to_exasol
  gateway_translator enabled = record {
    enabled = enabled;
    is_passthrough_query = is_passthrough_query;
    translate_postgres_to_exasol = λ sql. client_translation (translate_postgres_to_exasol sql);
  }
