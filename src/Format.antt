-- ===== src/Format.antt =====
-- crates/pithos-format/src/lib.rs: the primitives of the archive format PAF 0.1.
pub mod Buffer
pub mod Crc
pub mod Same
pub mod Header
pub mod Section
pub mod Group
pub mod Footer
pub mod Codec
pub mod Paths
pub mod Tables
