-- ===== src/Probe.antt =====
-- Active probing, custom_components/cast/coordinator.py: when a probe is due (Decide), the circuit
-- breaker on the ledger (Breaker, Opening, Holds, Circuit), and the probe tasks of the update cycle (Tasks).
pub mod Snapshot
pub mod Decide
pub mod Breaker
pub mod Opening
pub mod Holds
pub mod Circuit
pub mod Tasks
pub mod Cycle
pub mod Single
pub mod Events
pub mod AtMostOne
pub mod Plays
pub mod Clip
mod Examples
