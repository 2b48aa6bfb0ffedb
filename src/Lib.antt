-- ===== src/Lib.antt =====
-- A model of My-Polkadot-Orcale: a parachain whose wasmstore pallet keeps WebAssembly scripts and
-- jobs, an executor in the node that runs the jobs, and an ocw pallet with prices and staked
-- processors. The definitions are translated from the source, and the theorems are about them.
--
-- How the parts interact. A signed account uploads a script and requests its execution; the job is
-- queued as pending. In each block the wasmstore worker takes the first pending or finished job,
-- asks by an unsigned transaction for its next state, and writes the job's id behind a key list in
-- the node's offchain storage and its payload under the id. The executor reads that list every
-- second, resets it, runs the scripts and writes each result under its job's id and the id behind
-- a result list, from which the worker submits results by unsigned transactions.
--
-- Files, and the code that they model:
--   Model              model/src/lib.rs: the payloads and the states of a job
--   Frame              what the pallets take from FRAME and SCALE, as a record of operations and laws
--   Wasmstore/Types, Calls, Unsigned, Worker
--                      pallets/wasmstore-pallet/src/lib.rs: storage, the five calls, the check of
--                      unsigned transactions, and the offchain worker
--   Wasmstore/Chain    histories of calls and blocks
--   Wasmstore/Board    what the pallet promises: scripts, jobs and results, and how they may change
--   Wasmstore/Locks    its helpers on the offchain storage, which nothing calls
--   Node/Executor      node/src/scripts_exec_manager.rs: the two tasks of the executor, by turns
--   Pipeline           a job's way through worker, executor and worker again, undisturbed; beside
--                      it, the ways in which the job is lost or runs twice
--   System             chain, worker and executor side by side, as steps in any order
--   Script/Types, Registry, Memory, Output, Url, Runner
--                      script-executor/src/runtime.rs: selectors, reading a script's memory, and a
--                      whole run of a script
--   Script/Https       script-executor/src/https.rs
--   Ocw/Types, Prices, Staking, Unsigned, Offchain, Senders
--                      pallets/ocw-pallet/src/lib.rs: prices, staking and the offchain senders
--   Ocw/Chain          histories of its calls and blocks
--   Utils              offchain-utils/src/fetcher.rs, offchain-utils/src/offchain_api_key.rs and
--                      pallets/offchain-worker/src/lib.rs
--   Template           pallets/template/src/lib.rs
--   Extension          chain-extensions/src/lib.rs
--   Runtime            the constants of runtime/src/lib.rs and runtime/src/configs/mod.rs
--   Runtime/Chain      both pallets in one runtime: runtime/src/lib.rs
--   Runtime/Weights, Signing
--                      the block weights and the fee, and the signing of transactions, in those files
--   Runtime/Contracts  the call filter, the limits and the free XCM of runtime/src/configs and of
--                      runtime/src/apis.rs
--   Runtime/Genesis    runtime/src/genesis_config_presets.rs
--   Node/ChainSpec, ParaId
--                      node/src/chain_spec.rs and `load_spec`
--   Node/Startup, Service
--                      node/src/service.rs: the start of a node, as the trace of its steps
--   Node/Command, Relay
--                      node/src/command.rs and node/src/cli.rs
-- The other files of each folder hold its theorems; Examples applies them to concrete inputs.
--
-- How state and operations correspond. A call is a function from a state to an outcome and a state:
-- `ok`, `err` with the source's error, or `panic` for an `expect` or an index out of range. Storage
-- maps are association lists, by the key that the source uses; hashes, keys, accounts and origins
-- are handles. Functions keep their names from the source. Log lines and weights are left out.
-- FRAME rolls the storage back after an error of a call; the model does not rely on that, and shows
-- that nothing was written.
--
-- In System a step is one call or one block of the chain, one half of a run of the worker, or what a
-- task of the executor does between two waits. A run of the worker reads both lists, together with
-- the chain of its block, and does the rest later, on the storage as it is by then; several runs may
-- overlap, since each block starts one. The monitor's reading and writing of the key list are two
-- steps as well, and every script runs and ends for itself. The rest of a run is one step, though the
-- executor could write in between its writes. The channel to the listener is a list, first in, first
-- out.
--
-- Parameters, since their code is not in the repository: origins, bounded vectors, hashing and
-- encodings (Frame), the balances of accounts (Ocw/Types), the pool's answers, the network and
-- reqwest, JSON, UTF-8 and UTF-16, wasmtime (Script/Runner), the memory of a script
-- (Script/Memory), the signing of a payload, and what each step of the node's start does: that step
-- may fail with any error. The executor takes the run of a script as a parameter, since its theorems
-- hold for any; Script/Runner models that run, and Pipeline/Scripts puts it in.
--
-- Numbers and bounds. A `u32` or a block number is a natural number; sums that can leave the width
-- are written with the remainder or the saturation that the source has, and a theorem that needs a
-- sum within the width says so. Fuel is used twice: cutting a list in pieces takes fuel for one
-- piece a byte, and the loop over a URL takes a turn for each byte; both are shown to be enough.
--
-- Not modelled: the runtime APIs that hand a call on to a pallet, and configurations that only name
-- types; what build_import_queue and start_consensus hand on to the collator's crates; rpc.rs, which
-- merges two modules; generated weights, mocks, tests and benchmarks; and functions that nothing
-- calls (check_header_hash, build_result). The hook of the ocw pallet is commented out in the source;
-- the functions that it called are modelled all the same. Sleeping between turns is left out.
mod Prelude
pub mod Model
pub mod Frame
pub mod Wasmstore
pub mod Node
pub mod Ocw
pub mod Pipeline
pub mod System
pub mod Script
pub mod Template
pub mod Utils
pub mod Runtime
pub mod Extension
pub mod Examples
