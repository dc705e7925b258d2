-- ===== src/Projection.antt =====
-- The grouping of sync/catalog_projection.py.
pub mod Item
pub mod Safe
pub mod Compatible
pub mod Groups
pub mod Partition
pub mod Canonical
mod Tests
