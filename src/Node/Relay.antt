-- ===== src/Node/Relay.antt =====
-- The command line that is passed to the relay chain's node (`RelayChainCli` of node/src/cli.rs and
-- node/src/command.rs).
use my_polkadot_orcale.Prelude.{
  ℕ, Bytes, ◌≡◌, Bool, Option, none, some, [], ◌∷◌, codes, Outcome, ok, err, panic, bytes_eq, ◌==◌,
  if◌then◌else◌, arith,
}
use mathlib.Core.Option
use my_polkadot_orcale.Node.ChainSpec.{Extensions, SpecHost, Settings, try_get}

-- `polkadot_cli::RunCmd`: what it answers for the flags that it was parsed from.
pub record RunCmd : Type 0 where
  pub chain_id : (is_dev : Bool) → Outcome Bytes Bytes
  pub base_path : Outcome Bytes (Option Bytes)
  pub node_name : Outcome Bytes Bytes

pub record RelayChainCli : Type 0 where
  pub base : RunCmd
  pub chain_id : Option Bytes
  pub base_path : Option Bytes

abbrev pub p2p_listen_port : ℕ
p2p_listen_port = 30334

abbrev pub rpc_listen_port : ℕ
rpc_listen_port = 9945

abbrev pub prometheus_listen_port : ℕ
prometheus_listen_port = 9616

abbrev unwrap_or_default : Option Bytes → Bytes
unwrap_or_default none = []
unwrap_or_default (some x) = x

abbrev or_else : Option Bytes → Option Bytes → Option Bytes
or_else (some x) y = some x
or_else none y = y

-- `RelayChainCli::chain_id`: the specification's relay chain stands in for a flag that is not given.
unfoldable pub relay_chain_id : RelayChainCli → Bool → Outcome Bytes Bytes
relay_chain_id cli is_dev = elim (cli.base.chain_id is_dev) [
  | ok chain_id ↦ ok (if chain_id == [] then unwrap_or_default cli.chain_id else chain_id)
  | err e ↦ err e
  | panic ↦ panic
]

-- `RelayChainCli::base_path`
unfoldable pub relay_base_path : RelayChainCli → Outcome Bytes (Option Bytes)
relay_base_path cli = elim cli.base.base_path [
  | ok path ↦ ok (or_else path cli.base_path)
  | err e ↦ err e
  | panic ↦ panic
]

-- `RelayChainCli::node_name`: an error of the flags is a panic of `expect`, not an error.
unfoldable pub relay_node_name : RelayChainCli → Outcome Bytes Bytes
relay_node_name cli = elim cli.base.node_name [
  | ok name ↦ cli.base.node_name
  | err e ↦ panic
  | panic ↦ panic
]

module _ {Spec : Type 0} (h : SpecHost Spec) (join : Bytes → Bytes → Bytes) where
  -- `RelayChainCli::new`, with the parsed flags given.
  unfoldable pub new : Spec → Bytes → RunCmd → RelayChainCli
  new spec para_base_path base = record {
    base = base;
    chain_id = Option.map (λ (e : Extensions). e.relay_chain) (try_get h spec);
    base_path = some (join para_base_path (codes "polkadot"));
  }

  -- With no flags of its own, the relay chain's node runs the chain that the specification names,
  -- in the directory `polkadot` below the parachain's; each flag that is given has the last word.
  pub new-defaults :
      (settings : Settings) (para_base_path : Bytes) (base : RunCmd) (is_dev : Bool)
      → let cli = new (h.build settings) para_base_path base in
        (base.chain_id is_dev ≡ ok []
          → relay_chain_id cli is_dev ≡ ok settings.extensions.relay_chain)
        × (base.base_path ≡ ok none
            → relay_base_path cli ≡ ok (some (join para_base_path (codes "polkadot"))))
        × ((x : ℕ) (xs : Bytes)
            → base.chain_id is_dev ≡ ok (x ∷ xs)
            → relay_chain_id cli is_dev ≡ ok (x ∷ xs))
        × ((path : Bytes) → base.base_path ≡ ok (some path) → relay_base_path cli ≡ ok (some path))
  unfolding new relay_chain_id relay_base_path
  new-defaults settings para_base_path base is_dev = (
    (λ e. ground (arith, h.get_extension-build settings)),
    (λ e. ground arith),
    (λ x xs e. ground arith),
    λ path e. ground arith,
  )
