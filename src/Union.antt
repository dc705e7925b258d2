-- ===== src/Union.antt =====
-- Disjoint sets in parent maps.
pub mod Forest
pub mod Join
pub mod Classes
mod Tests
