-- ===== src/Watch.antt =====
-- The propagation of watch states between Plex and Jellyfin: sync/watch_sync.py.
pub mod Rows
pub mod Decide
pub mod Prepare
pub mod Record
pub mod View
pub mod Growth
pub mod Choice
pub mod Persisted
pub mod Converge
pub mod Round
pub mod Run
pub mod Saved
pub mod Outcome
pub mod Completion
mod Tests
