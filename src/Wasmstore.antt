-- ===== src/Wasmstore.antt =====
-- The wasmstore pallet (pallets/wasmstore-pallet/src/lib.rs).
pub mod Types
pub mod Calls
pub mod Unsigned
pub mod Worker
pub mod Locks
pub mod Atomic
pub mod Upload
pub mod Request
pub mod Submit
pub mod Jobs
pub mod Chain
pub mod Clock
pub mod Invariant
pub mod Preserved
pub mod Handoff
pub mod Submission
pub mod Run
pub mod Stuck
pub mod Board
pub mod Lifecycle
pub mod Pool
