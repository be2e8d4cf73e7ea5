-- ===== src/Daemon.antt =====
-- crates/pithos-daemon: the parts of the daemon with logic of their own.
pub mod Limits
pub mod Lane
pub mod Registry
