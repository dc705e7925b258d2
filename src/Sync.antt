-- ===== src/Sync.antt =====
-- The synchronization of a source: sync/orchestrator.py.
pub mod Media
pub mod Rows
pub mod Catalog
pub mod Persist
pub mod Checkpoint
pub mod Page
pub mod Scan
pub mod Library
pub mod Run
pub mod Ending
pub mod Accounting
pub mod Resume
pub mod Restart
pub mod Sweep
pub mod Closing
pub mod Single
pub mod Slices
pub mod Reading
mod Samples
mod Tests
mod RunTests
