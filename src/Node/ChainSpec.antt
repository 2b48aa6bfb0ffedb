-- ===== src/Node/ChainSpec.antt =====
-- The chain specifications that the node knows by name (node/src/chain_spec.rs, and `load_spec` of
-- node/src/command.rs). A text is given by its bytes.
use my_polkadot_orcale.Prelude.{
  ℕ, Bytes, ◌≡◌, Option, none, some, List, [], ◌∷◌, codes, bytes_eq, ◌==◌, if◌then◌else◌, Outcome,
  ok, panic, ◌||◌,
}

pub record Extensions : Type 0 where
  pub relay_chain : Bytes
  pub para_id : ℕ

pub data ChainType : Type 0 where
  development local_chain : ChainType

pub data Property : Type 0 where
  text : Bytes → Property
  number : ℕ → Property

-- What a specification's builder is given.
pub record Settings : Type 0 where
  pub code : Bytes
  pub extensions : Extensions
  pub name : Bytes
  pub id : Bytes
  pub chain_type : ChainType
  pub genesis_preset : Bytes
  pub protocol_id : Option Bytes
  pub properties : List (Bytes × Property)

-- The builder and the reader of specifications, of sc_chain_spec, the names of the two presets, and
-- the runtime's binary, if it has been built.
pub record SpecHost (Spec : Type 0) : Type 0 where
  pub build : Settings → Spec
  pub from_json_file : Bytes → Outcome Bytes Spec
  pub get_extension : Spec → Option Extensions
  pub get_extension-build : (s : Settings) → get_extension (build s) ≡ some s.extensions
  pub wasm_binary : Option Bytes
  pub dev_runtime_preset : Bytes
  pub local_testnet_runtime_preset : Bytes

abbrev pub unit_properties : List (Bytes × Property)
unit_properties =
    (codes "tokenSymbol", Property.text (codes "UNIT"))
    ∷ (codes "tokenDecimals", Property.number 12)
    ∷ (codes "ss58Format", Property.number 42)
    ∷ []

module _ {Spec : Type 0} (h : SpecHost Spec) where
  abbrev pub rococo_local : Extensions
  rococo_local = record { relay_chain = codes "rococo-local"; para_id = 1000 }

  -- `development_config` makes the properties, but does not hand them to the builder.
  abbrev pub development_settings : Bytes → Settings
  development_settings code = record {
    code = code;
    extensions = rococo_local;
    name = codes "Development";
    id = codes "dev";
    chain_type = development;
    genesis_preset = h.dev_runtime_preset;
    protocol_id = none;
    properties = [];
  }

  abbrev pub local_testnet_settings : Bytes → Settings
  local_testnet_settings code = record {
    code = code;
    extensions = rococo_local;
    name = codes "Local Testnet";
    id = codes "local_testnet";
    chain_type = local_chain;
    genesis_preset = h.local_testnet_runtime_preset;
    protocol_id = some (codes "template-local");
    properties = unit_properties;
  }

  -- Without the binary, `expect` panics.
  abbrev pub with_binary : (Bytes → Settings) → Option Bytes → Outcome Bytes Spec
  with_binary settings none = panic
  with_binary settings (some code) = ok (h.build (settings code))

  abbrev pub development_config : Outcome Bytes Spec
  development_config = with_binary development_settings h.wasm_binary

  abbrev pub local_testnet_config : Outcome Bytes Spec
  local_testnet_config = with_binary local_testnet_settings h.wasm_binary

  unfoldable pub load_spec : Bytes → Outcome Bytes Spec
  load_spec id =
      if id == codes "dev"
      then development_config
      else if id == codes "template-rococo"
      then local_testnet_config
      else if (id == []) || (id == codes "local")
      then local_testnet_config
      else h.from_json_file id

  -- `Extensions::try_get`
  abbrev pub try_get : Spec → Option Extensions
  try_get spec = h.get_extension spec
