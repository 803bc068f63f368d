-- ===== src/CodeTools.antt =====
-- The crate `code_tools`, but for its linters.
pub mod Language
pub mod Analyzer
