-- ===== src/Types.antt =====
-- The crate `types`.
pub mod Rank
pub mod SourceItem
pub mod SearchTerm
pub mod Query
pub mod Scope
pub mod Item
