-- ===== src/Diagnostics.antt =====
-- The diagnostics of an entry, custom_components/cast/diagnostics.py: Report; with the hardware addresses
-- of custom_components/cast/mac.py.
pub mod Mac
pub mod Report
mod Examples
