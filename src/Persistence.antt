-- ===== src/Persistence.antt =====
-- packages/persistence: the store of runs, over tables.
pub mod Sql
pub mod Database
pub mod Store
pub mod Commit
pub mod History
