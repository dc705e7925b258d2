-- ===== src/Tasks.antt =====
-- The persistent queue of instant cross-service updates: src/euvieouvi/sync/async_tasks.py.
pub mod Row
pub mod Queue
pub mod Run
pub mod Invariant
pub mod View
pub mod Events
pub mod Races
pub mod Attempts
pub mod Drain
pub mod Drained
pub mod Steps
mod Tests
