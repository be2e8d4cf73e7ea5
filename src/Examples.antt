-- ===== src/Examples.antt =====
-- Concrete runs of the modelled code, and the theorems at concrete inputs.
pub mod Fixed
pub mod Registry
pub mod Planning
pub mod Limiting
pub mod Pathnames
pub mod Sections
pub mod Chunking
pub mod Catalog
pub mod Tables
pub mod Lanes
pub mod Dispatching
pub mod Jobs
pub mod Calls
pub mod Restarts
pub mod Requests
