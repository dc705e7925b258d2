-- ===== src/Jobs.antt =====
-- The durable job queue: src/euvieouvi/sync/job_worker.py, the queue part of sync/jobs.py and the
-- row of database/models.py. `Row` is the row and its columns, the other children an operation or
-- what is proved of it each.
pub mod Row
pub mod Claim
pub mod Lease
pub mod Retry
pub mod Submit
pub mod Execute
pub mod Monitor
pub mod Reconcile
pub mod Invariant
pub mod Preserve
pub mod Order
pub mod Steps
pub mod Fencing
pub mod Backoff
pub mod Outcome
mod Tests
