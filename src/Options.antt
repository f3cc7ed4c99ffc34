-- ===== src/Options.antt =====
-- The setup and options flows of custom_components/cast/config_flow.py.
pub mod Flow
pub mod Overrides
pub mod Unchanged
mod Examples
