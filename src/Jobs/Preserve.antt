-- ===== src/Jobs/Preserve.antt =====
-- Each operation of the queue keeps `IsConsistent`.
pub mod Claim
pub mod Lease
pub mod Submit
pub mod Execution
