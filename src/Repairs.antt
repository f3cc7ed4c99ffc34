-- ===== src/Repairs.antt =====
-- Repair issues and stale devices, custom_components/cast/issues.py: the issue registry (Registry), the
-- manager's state and its operations (Manager), and what holds of the active issues.
pub mod Registry
pub mod Manager
pub mod Stale
pub mod Active
pub mod Operations
pub mod Counts
pub mod Agreement
pub mod Streak
pub mod Unseen
pub mod Listen
pub mod Store
pub mod Unary
pub mod Flow
pub mod Restart
mod Examples
mod RestartExamples
pub mod Heard
