-- ===== src/Programs.antt =====
-- src/main.rs and src/bin/exasol_exec.rs: the arguments of the two programs, and what the second one
-- does with them.
pub mod Server
pub mod Exec
pub mod Arguments
