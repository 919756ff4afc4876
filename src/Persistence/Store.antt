-- ===== src/Persistence/Store.antt =====
-- packages/persistence/attention_sink/persistence/sqlite.py: each method of `SqliteRepository` as an action on the
-- database. The clock's reading is an argument.
pub mod Runs
pub mod Locks
pub mod Checks
pub mod Cycles
pub mod Arms
pub mod Measurements
pub mod Reports
