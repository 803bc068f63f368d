-- ===== src/Filter.antt =====
-- The crate `filter`.
pub mod Items
pub mod Sequential
pub mod Parallel
