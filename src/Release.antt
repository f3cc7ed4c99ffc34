-- ===== src/Release.antt =====
-- The release versions of scripts/set_version.py and scripts/release_config.py.
pub mod Calver
pub mod RoundTrip
pub mod Next
pub mod Fields
pub mod SetVersion
mod Examples
