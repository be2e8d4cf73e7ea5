-- ===== src/Analysis.antt =====
-- crates/pithos-analysis: how the bytes of a file are cut into logical chunks.
pub mod Chunking
