-- ===== src/Breaker.antt =====
-- The circuit breaker of observability.py.
pub mod Metric
pub mod Steps
pub mod Opening
mod Tests
