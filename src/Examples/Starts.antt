-- ===== src/Examples/Starts.antt =====
-- Examples for starts of the node and its specifications.
use my_polkadot_orcale.Prelude.{
  ◌≢◌, refl, Bytes, Option, some, none, [], ◌∷◌, ok, err, true, All, codes, bytes_eq,
}
use my_polkadot_orcale.Node.ChainSpec.{Settings, SpecHost, development_settings}
use my_polkadot_orcale.Node.Startup.{Step}
use my_polkadot_orcale.Node.Service.{Configuration, new_partial, start_tasks, start_parachain_node}
use my_polkadot_orcale.Node.Service.Failure.{start-failure}
use my_polkadot_orcale.Node.Command.{Cli, Node}

abbrev specs : SpecHost Settings
specs = record {
  build = λ s. s;
  from_json_file = λ path. err path;
  get_extension = λ s. some s.extensions;
  get_extension-build = λ s. refl;
  wasm_binary = some (1 ∷ []);
  dev_runtime_preset = 1 ∷ [];
  local_testnet_runtime_preset = 2 ∷ [];
}

-- A validator with an offchain worker, telemetry and its hardware not to be measured.
abbrev validator : Configuration
validator = record {
  telemetry_endpoints = some ((1 ∷ []) ∷ []);
  default_heap_pages = none;
  is_authority = true;
  offchain_worker_enabled = true;
}

abbrev node : Node Settings
node = record {
  spec = development_settings specs (1 ∷ []);
  config = validator;
  has_database_path = true;
  hardware = true;
  has_collator_key = true;
}

abbrev cli : Cli
cli = record { subcommand = none; no_hardware_benchmarks = true }

-- The relay chain's interface cannot be built.
abbrev no_relay : Step → Option Bytes
no_relay Step.build_relay_chain_interface = some (codes "no relay chain")
no_relay _ = none

failed : (start_parachain_node no_relay validator true 1000 none []).0 ≢ ok tt
unfolding start_parachain_node start_tasks new_partial
failed e = cc

start-failure_example :
    All (λ s. s ≢ Step.run_executor) (start_parachain_node no_relay validator true 1000 none []).1
start-failure_example = start-failure no_relay validator true 1000 none failed
