-- ===== src/Pilot.antt =====
-- packages/pilot: how a run spends model calls and advances six arms together.
pub mod Spending
pub mod Configuration
pub mod Snapshots
pub mod Records
pub mod RunSnapshots
pub mod Engine
