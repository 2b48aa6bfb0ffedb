-- ===== src/Node/Service.antt =====
-- The start of a node (node/src/service.rs): which tasks it spawns, in which order, and for which
-- configurations.
pub mod Failure
use my_polkadot_orcale.Prelude.{
  ℕ, ◌%◌, Bytes, Bool, true, false, Option, none, some, List, [], ◌∷◌, ◌++◌, return, panicked,
  ◌>>=◌, ◌>>◌, u32_mod, not, ◌&&◌,
}
use my_polkadot_orcale.Node.Startup.{
  RecoveryProfile, collator, full_node, HeapAllocStrategy, default_strategy, static_pages, Task,
  Step, Startup, perform, note, when,
}

-- The parts of `Configuration` that decide what is started.
pub record Configuration : Type 0 where
  pub telemetry_endpoints : Option (List Bytes)
  pub default_heap_pages : Option ℕ
  pub is_authority : Bool
  pub offchain_worker_enabled : Bool

-- `telemetry_endpoints.filter(|x| !x.is_empty())`
abbrev pub has_telemetry : Option (List Bytes) → Bool
has_telemetry none = false
has_telemetry (some []) = false
has_telemetry (some (x ∷ xs)) = true

-- `HeapAllocStrategy::Static { extra_pages: h as _ }`: the `u64` is cut to 32 bits.
abbrev pub heap_pages : Option ℕ → HeapAllocStrategy
heap_pages none = default_strategy
heap_pages (some h) = static_pages (h % u32_mod)

-- The benchmark of the hardware, if it was run: whether it meets the reference.
abbrev pub HwBench : Type 0
HwBench = Bool

abbrev pub report_hwbench : Configuration → Option HwBench → Startup (Unit {0})
report_hwbench config none = return tt
report_hwbench config (some meets_reference) = do
  note Step.print_hwbench
  when (not meets_reference && config.is_authority) (note Step.warn_hardware)
  when (has_telemetry config.telemetry_endpoints) (note (Step.spawn Task.telemetry_hwbench))

abbrev pub recovery_profile : Bool → RecoveryProfile
recovery_profile true = collator
recovery_profile false = full_node

-- `collator_key.expect(..)`, and `start_consensus`, which cannot fail itself.
abbrev pub start_consensus : Bool → Startup (Unit {0})
start_consensus false = panicked
start_consensus true = note (Step.spawn Task.aura)

module _ (fails : Step → Option Bytes) where
  unfoldable pub new_partial : Configuration → Startup (Unit {0})
  new_partial config = do
    when (has_telemetry config.telemetry_endpoints) (perform fails Step.new_telemetry_worker)
    let pages = heap_pages config.default_heap_pages
    perform fails (Step.new_full_parts pages pages)
    when (has_telemetry config.telemetry_endpoints) (note (Step.spawn Task.telemetry))
    note (Step.new_transaction_pool config.is_authority)
    note Step.build_import_queue

  -- Everything before the executor. Whether the relay chain's interface comes with a collator key
  -- is a parameter.
  unfoldable pub start_tasks : Configuration → Bool → ℕ → Option HwBench → Startup (Unit {0})
  unfolding new_partial
  start_tasks config has_collator_key para_id hwbench = do
    note Step.prepare_node_config
    new_partial config
    perform fails Step.build_relay_chain_interface
    perform fails (Step.build_network para_id)
    when config.offchain_worker_enabled (note (Step.spawn Task.offchain_workers_runner))
    perform fails Step.spawn_tasks
    report_hwbench config hwbench
    perform fails Step.overseer_handle
    perform fails (Step.start_relay_chain_tasks para_id (recovery_profile config.is_authority))
    when config.is_authority (start_consensus has_collator_key)

  unfoldable pub start_parachain_node :
      Configuration → Bool → ℕ → Option HwBench → Startup (Unit {0})
  unfolding start_tasks
  start_parachain_node config has_collator_key para_id hwbench = do
    start_tasks config has_collator_key para_id hwbench
    note Step.run_executor
    note Step.start_network
