-- ===== src/Policy.antt =====
-- src/policy.rs: which SQL statements the gateway serves, and how.
pub mod Plan
pub mod Regexes
pub mod Words
pub mod Targets
pub mod Cursors
pub mod SearchPath
pub mod Quoting
pub mod Fuel
pub mod Catalog
pub mod Local
pub mod Classify
pub mod Kept
pub mod Served
