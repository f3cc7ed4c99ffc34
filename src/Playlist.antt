-- ===== src/Playlist.antt =====
-- Playlists, custom_components/cast/helpers.py: the lines of an m3u file (Lines), its items (Items) and
-- what they are (Entries), pls files and the choice between the two (Pls); Texts gives strings back.
pub mod Lines
pub mod Items
pub mod Entries
pub mod Pls
pub mod Texts
mod Examples
