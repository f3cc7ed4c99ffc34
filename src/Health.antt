-- ===== src/Health.antt =====
-- custom_components/cast/health.py: the delivery ledger.
pub mod Outcome
pub mod Types
pub mod Listener
pub mod Ledger
pub mod Verdicts
pub mod Requests
pub mod Shutdown
pub mod History
pub mod Run
pub mod Answers
pub mod Confirm
pub mod ErrorStatus
pub mod Expiry
pub mod Begin
pub mod Raise
pub mod Recorded
pub mod Isolation
mod Examples
