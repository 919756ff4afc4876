-- ===== src/Policies.antt =====
-- packages/policies: the mechanisms that decide what an arm forgets.
pub mod Base
pub mod Fifo
pub mod Lru
pub mod HeavyHitter
pub mod PinnedOrigin
pub mod Reference
pub mod SeededRandom
pub mod Summarization
pub mod Registry
