-- ===== src/Pilot/Engine.antt =====
-- packages/pilot/attention_sink/pilot/engine.py: one run in memory. The models behind the gateway's protocols are the
-- parameter `Gateway`; the arms' calls, which run side by side, are taken in the configured order.
pub mod Claims
pub mod State
pub mod Seeds
pub mod Starting
pub mod Citing
pub mod Generation
pub mod Rebalancing
pub mod Results
pub mod Cycle
pub mod Checkpoints
