-- ===== src/Translator.antt =====
-- src/translator.rs: PostgreSQL's SQL as Exasol's, from the test for statements that pass as they are to
-- the rewriting of catalog queries.
pub mod Keys
pub mod Detection
pub mod Patterns
pub mod Constants
pub mod Rewrites
pub mod Known
pub mod Catalog
pub mod Laws
pub mod Unchanged
pub mod Qualified
pub mod Pipeline
