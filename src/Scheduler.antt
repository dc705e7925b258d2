-- ===== src/Scheduler.antt =====
-- The daily scheduler: sync/scheduler.py.
pub mod Daily
pub mod Once
mod Tests
