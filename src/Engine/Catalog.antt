-- ===== src/Engine/Catalog.antt =====
-- crates/pithos-engine/src/lib.rs: what `read_catalog` checks of the tables, once their JSON is
-- decoded.
pub mod Entries
pub mod Restore
pub mod Groups
pub mod Slice
