-- ===== src/Player.antt =====
-- The media player entities, custom_components/cast/media_player.py.
pub mod Types
pub mod Callbacks
pub mod Media
pub mod Attributes
pub mod Lifecycle
pub mod Sound
pub mod Keeps
pub mod Selection
pub mod Silence
pub mod Calls
pub mod Requests
pub mod Books
pub mod Tracked
pub mod PlayMedia
pub mod Announce
pub mod Announced
pub mod Target
pub mod Setup
pub mod Counted
pub mod Owners
pub mod Dashboard
pub mod Browse
mod Examples
