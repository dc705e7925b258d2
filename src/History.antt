-- ===== src/History.antt =====
-- The history of playback: sync/persistence.py on the tables watch_events and watch_states.
pub mod Row
pub mod State
pub mod Event
pub mod Refresh
pub mod Repeat
pub mod Growth
pub mod Containers
pub mod Derived
pub mod Rebuilt
pub mod Collected
pub mod Grouped
pub mod Shows
mod Tests
