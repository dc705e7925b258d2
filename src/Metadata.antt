-- ===== src/Metadata.antt =====
-- Which source may change what of an item of the catalogue: sync/persistence.py.
pub mod Row
pub mod Identifiers
pub mod Kept
pub mod Replaced
pub mod Delivered
pub mod Images
mod Tests
