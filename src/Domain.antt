-- ===== src/Domain.antt =====
-- packages/domain: the records of the experiment, what makes each one valid, and the transitions of an
-- arm's memory.
pub mod Enums
pub mod Errors
pub mod Actions
pub mod Runtime
pub mod Hashing
pub mod Identifiers
pub mod Tokens
pub mod Memory
pub mod Citations
pub mod Decision
pub mod Cycle
pub mod Ledger
pub mod Explain
pub mod State
pub mod Configuration
