-- ===== src/Node/Command.antt =====
-- The commands of the node (node/src/command.rs, node/src/cli.rs). What a command of another crate
-- does is one step.
pub mod Failure
use my_polkadot_orcale.Prelude.{
  Bytes, Bool, true, false, Option, none, some, [], ◌∷◌, ◌++◌, codes, Outcome, ok, err, panic,
  throw, ◌>>◌,
}
use my_polkadot_orcale.Node.ChainSpec.{Extensions, SpecHost, load_spec, try_get}
use my_polkadot_orcale.Node.Startup.{Step, Startup, perform, note, when}
use my_polkadot_orcale.Node.Service.{Configuration, HwBench, new_partial, start_parachain_node}

-- `frame_benchmarking_cli::BenchmarkCmd`, the commands that are told apart.
pub data BenchmarkCmd : Type 0 where
  pallet block storage machine other_benchmark : BenchmarkCmd

pub data Subcommand : Type 0 where
  build_spec check_block export_blocks export_state import_blocks revert purge_chain : Subcommand
  export_genesis_head : Subcommand
  export_genesis_wasm : (chain : Option Bytes) → Subcommand
  benchmark : BenchmarkCmd → Subcommand

pub record Cli : Type 0 where
  pub subcommand : Option Subcommand
  pub no_hardware_benchmarks : Bool

-- The configuration that a runner gives: the specification, where the database is, and what of the
-- machine the start depends on.
pub record Node (Spec : Type 0) : Type 0 where
  pub spec : Spec
  pub config : Configuration
  pub has_database_path : Bool
  pub hardware : HwBench
  pub has_collator_key : Bool

abbrev pub no_para_id : Bytes
no_para_id = codes "Could not find parachain ID in chain-spec."

abbrev pub unwrap_or_default : Option Bytes → Bytes
unwrap_or_default none = []
unwrap_or_default (some x) = x

-- The argument of `then_some` is evaluated first: the benchmark is run whatever the flag is, and
-- only its result depends on it.
abbrev pub measured : Bool → Bool → HwBench → Option HwBench
measured no_hardware_benchmarks false hardware = none
measured true true hardware = none
measured false true hardware = some hardware

module _ {Spec : Type 0} (h : SpecHost Spec) (runtime_benchmarks : Bool)
    (fails : Step → Option Bytes) where
  -- `create_configuration(..).map_err(..)?`
  abbrev pub relay_configuration : Startup (Unit {0})
  relay_configuration trace = (
    elim (fails Step.create_configuration) [
      | none ↦ ok tt
      | some e ↦ err (codes "Relay chain argument error: " ++ e)
    ],
    trace ++ Step.create_configuration ∷ [],
  )

  -- `construct_async_run!`
  abbrev pub construct_async_run : Node Spec → Startup (Unit {0})
  construct_async_run node = do
    perform fails Step.create_runner
    note Step.async_run
    new_partial fails node.config
    perform fails Step.run_command

  abbrev pub with_partial : Node Spec → Startup (Unit {0})
  with_partial node = do
    note Step.sync_run
    new_partial fails node.config
    perform fails Step.run_command

  abbrev pub run_benchmark : BenchmarkCmd → Node Spec → Startup (Unit {0})
  run_benchmark pallet node = elim runtime_benchmarks [
    | true ↦ note Step.sync_run >> perform fails Step.run_command
    | false ↦ throw (
        codes
          "Benchmarking wasn't enabled when building the node. You can enable it with `--features runtime-benchmarks`.")
  ]
  run_benchmark block node = with_partial node
  run_benchmark storage node = elim runtime_benchmarks [
    | true ↦ with_partial node
    | false ↦
        throw (codes "Compile with --features=runtime-benchmarks to enable storage benchmarks.")
  ]
  run_benchmark machine node = note Step.sync_run >> perform fails Step.run_command
  run_benchmark other_benchmark node = throw (codes "Benchmarking sub-command unsupported")

  -- `cli.load_spec(..)?`
  abbrev pub loading : Outcome Bytes Spec → Startup (Unit {0})
  loading (ok spec) trace = (ok tt, trace)
  loading (err e) trace = (err e, trace)
  loading panic trace = (panic, trace)

  abbrev pub start_with : Node Spec → Option HwBench → Option Extensions → Startup (Unit {0})
  start_with node hwbench none = throw no_para_id
  start_with node hwbench (some e) = do
    note Step.relay_chain_cli
    relay_configuration
    start_parachain_node fails node.config node.has_collator_key e.para_id hwbench

  -- The node itself, inside `run_node_until_exit`.
  abbrev pub run_node : Cli → Node Spec → Startup (Unit {0})
  run_node cli node = do
    when node.has_database_path (note Step.gather_hwbench)
    start_with node (measured cli.no_hardware_benchmarks node.has_database_path node.hardware)
        (try_get h node.spec)

  unfoldable pub run_subcommand : Subcommand → Node Spec → Startup (Unit {0})
  run_subcommand build_spec node =
      perform fails Step.create_runner >> (note Step.sync_run >> perform fails Step.run_command)
  run_subcommand check_block node = construct_async_run node
  run_subcommand export_blocks node = construct_async_run node
  run_subcommand export_state node = construct_async_run node
  run_subcommand import_blocks node = construct_async_run node
  run_subcommand revert node = construct_async_run node
  run_subcommand purge_chain node = do
    perform fails Step.create_runner
    note Step.sync_run
    note Step.relay_chain_cli
    relay_configuration
    perform fails Step.run_command
  run_subcommand export_genesis_head node = perform fails Step.create_runner >> with_partial node
  run_subcommand (export_genesis_wasm chain) node = do
    perform fails Step.create_runner
    note Step.sync_run
    note (Step.load_spec (unwrap_or_default chain))
    loading (load_spec h (unwrap_or_default chain))
    perform fails Step.run_command
  run_subcommand (benchmark cmd) node = perform fails Step.create_runner >> run_benchmark cmd node

  -- `match &cli.subcommand`
  unfoldable pub run_with : Option Subcommand → Cli → Node Spec → Startup (Unit {0})
  run_with (some cmd) cli node = run_subcommand cmd node
  run_with none cli node = do
    perform fails Step.create_runner
    note Step.run_node_until_exit
    run_node cli node

  unfoldable pub run : Cli → Node Spec → Startup (Unit {0})
  run cli node = run_with cli.subcommand cli node
