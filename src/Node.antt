-- ===== src/Node.antt =====
-- The node: its script executor (node/src/scripts_exec_manager.rs), which shares the offchain storage
-- with the wasmstore offchain worker, its service, its commands and its chain specifications.
pub mod Executor
pub mod Storage
pub mod ChainSpec
pub mod Startup
pub mod Service
pub mod Command
pub mod Relay
pub mod ParaId
