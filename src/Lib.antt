-- ===== src/Lib.antt =====
-- Pithos, an archiver: the container format PAF with its encoders and decoders, the planner of solid
-- groups, the requests that the daemon reads, and of the daemon the registry of jobs, the limits and
-- the lanes of waiting jobs. Paths are from the repository's root.
--
-- Core         crates/pithos-core/src/lib.rs: `PithosError`, `Result`, the profiles and the limits.
--              Core/Checked and Core/Bytes: the checked arithmetic of `u64`, and `to_le_bytes` with its
--              converse.
-- Format       crates/pithos-format/src/lib.rs. Format/Buffer is the fixed array that an encoder fills
--              by `copy_from_slice`, with the readers `read_u16` to `read_u64`; Header, Section, Group
--              and Footer are the fixed-size records, Codec the registry section, Paths the
--              archive paths and link targets, Tables the records of the tables.
-- Engine       crates/pithos-engine/src/lib.rs: Engine/Sections is what `read_catalog` checks of the
--              header and of the section directory; Engine/Catalog what it checks of the entry table,
--              the restore map and the group table, and the slices that are restored from a group.
--              Engine/Dispatch is `next_ready_task` of src/scheduler.rs of that crate.
-- Codecs       crates/pithos-codecs/src/lib.rs: the codec ids and the memory bounds.
-- Analysis     crates/pithos-analysis. Analysis/Chunking is src/chunking.rs: the configuration, the
--              coverage check, the fixed blocks, FastCDC and the structural regions in memory.
-- Planner      crates/pithos-planner/src/lib.rs: `plan_solid_groups` and `CandidateCost::total`.
-- StdPath      `std::path` on Unix: the components of a path, by which paths are compared.
-- AgentApi     crates/pithos-agent-api/src/lib.rs: the error of a call, the methods, the identifiers, the
--              states of a job, `parse_request`, and the walk through its JSON value.
-- Daemon       crates/pithos-daemon. Daemon/Limits is src/limits.rs, Daemon/Lane the
--              `PriorityLane` of src/scheduler.rs.
--              Daemon/Registry is src/store.rs, the registry of jobs: Maps the `BTreeMap`, Identifiers,
--              Events, Markers and Validation the parts of a state and the checks of a whole one,
--              Storage the commit to the file of the store, Submission, Operations, Calls, Queries and
--              Lifetime the calls, Runs their sequences. It uses the types of AgentApi.
-- Examples     runs of the code at concrete inputs.
--
-- A `Result` is a value of `Core.Result`, and `?` is the bind of a do block. A struct is a record with
-- the source's fields; the ranges of its field types are a predicate on it (`IsHeader` and its like),
-- since every integer is a plain number. `u64` additions and products are the checked ones of
-- Core/Checked, and `usize` is 64 bits wide. A mutable local is an argument of the loop that changes
-- it; a `Vec` that a loop only pushes to is the list that the rest of the loop returns.
--
-- CRC32C comes from the crate `crc32c` and is a parameter, `Format.Crc.Crc32c`, of which the proofs use
-- only that its result is a `u32`. The crate `fastcdc` is the parameter
-- `Analysis.Chunking.FastCdcCrate`: its limits, and the cuts that it yields, whatever they are.
--
-- A call of the registry takes a `World`, which holds what the clock, the file system, serde_json and
-- the verification of an archive answer during the call, and returns its result with the registry
-- after it. The mutex makes the calls one sequence, so that a run is any list of calls in any order. A
-- `BTreeMap` is the list of its entries in the order of the keys.
--
-- Loops recur on a list, but for the `while` loop of the fixed blocks: its fuel is the number of blocks
-- that the code computes, which suffices by the theorem on it. A checkpoint closure or a cancellation
-- token is a step on a state of any type, which returns the next state or an error.
--
-- Not modelled: file and pipe input and output, the compressors, BLAKE3, the text of JSON
-- (what serde_json reads and writes is a parameter), threads, and in the daemon the scheduler's shares,
-- the sessions, the service and the transport.
pub mod AgentApi
pub mod Analysis
pub mod Codecs
pub mod Core
pub mod Daemon
pub mod Engine
pub mod Examples
pub mod Format
pub mod Planner
pub mod Prelude
pub mod StdPath
