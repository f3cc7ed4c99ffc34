-- ===== src/Entry.antt =====
-- The set-up and the unloading of a config entry, custom_components/cast/__init__.py: Setup puts the
-- parts together, Unloaded is what holds when they have been shut down.
pub mod HomeCast
pub mod Setup
pub mod Unloaded
mod Examples
