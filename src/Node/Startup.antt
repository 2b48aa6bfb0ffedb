-- ===== src/Node/Startup.antt =====
-- Steps of the node's start and of its commands, each of which may fail: the trace of the steps that
-- were taken, and the first error. What a step does is code of other crates; that it fails with some
-- error, or does not, is a parameter.
use my_polkadot_orcale.Prelude.{
  ℕ, Bytes, Option, none, some, List, [], ◌∷◌, ◌++◌, ok, err, Exec, return, Bool, true, false,
}

-- `DARecoveryProfile`
pub data RecoveryProfile : Type 0 where
  collator full_node : RecoveryProfile

-- `HeapAllocStrategy`, the default one or a number of extra pages
pub data HeapAllocStrategy : Type 0 where
  default_strategy : HeapAllocStrategy
  static_pages : (extra_pages : ℕ) → HeapAllocStrategy

pub data Task : Type 0 where
  telemetry offchain_workers_runner telemetry_hwbench aura : Task

pub data Step : Type 0 where
  -- node/src/service.rs
  prepare_node_config new_telemetry_worker : Step
  new_full_parts : (onchain offchain : HeapAllocStrategy) → Step
  new_transaction_pool : (is_authority : Bool) → Step
  build_import_queue build_relay_chain_interface : Step
  build_network : (para_id : ℕ) → Step
  spawn : Task → Step
  spawn_tasks print_hwbench warn_hardware overseer_handle : Step
  start_relay_chain_tasks : (para_id : ℕ) → RecoveryProfile → Step
  run_executor start_network : Step
  -- node/src/command.rs
  create_runner gather_hwbench relay_chain_cli create_configuration : Step
  sync_run async_run run_node_until_exit : Step
  load_spec : (id : Bytes) → Step
  run_command : Step

abbrev pub Startup : Type 0 → Type 0
Startup = Exec (List Step) Bytes

-- A step that cannot fail.
abbrev pub note : Step → Startup (Unit {0})
note s trace = (ok tt, trace ++ s ∷ [])

abbrev pub when : Bool → Startup (Unit {0}) → Startup (Unit {0})
when true m = m
when false m = return tt

-- A step that may fail; its error is passed on (`?`).
abbrev pub perform : (Step → Option Bytes) → Step → Startup (Unit {0})
perform fails s trace = (elim (fails s) [ none ↦ ok tt | some e ↦ err e ], trace ++ s ∷ [])
