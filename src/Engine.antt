-- ===== src/Engine.antt =====
-- crates/pithos-engine: the parts that check an archive before anything of it is restored.
pub mod Sections
pub mod Catalog
pub mod Dispatch
