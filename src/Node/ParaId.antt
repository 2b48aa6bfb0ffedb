-- ===== src/Node/ParaId.antt =====
-- The parachain that the node runs as, and the one that its genesis names (node/src/chain_spec.rs,
-- runtime/src/genesis_config_presets.rs).
use my_polkadot_orcale.Prelude.{
  Bytes, ◌≡◌, ◌⊎◌, inl, inr, refl, sym, ◌∙◌, some, none, [], ◌∷◌, codes, ok, arith, bytes_eq,
  bytes_beq_iff, ◌==◌, if◌then◌else◌, map,
}
use my_polkadot_orcale.Node.ChainSpec.{
  Settings, SpecHost, development_settings, local_testnet_settings, with_binary, load_spec,
}
use my_polkadot_orcale.Runtime.Genesis.{
  GenesisHost, GenesisConfig, get_preset, serialise, testnet_config, collator, endowed_seeds,
}

-- A choice by two keys, both of which lead to the same answer.
either_key :
    {A : Type 0} (id k j : Bytes) (x z : A)
    → (id ≡ k) ⊎ (id ≡ j)
    → (if id == k then x else if id == j then x else z) ≡ x
either_key id k j x z (inl e) = ground (arith, bytes_beq_iff id k)
either_key id k j x z (inr e) = ground (arith, bytes_beq_iff id j)

module _ {Spec Value : Type 0} (h : SpecHost Spec) (g : GenesisHost Value) where
  -- A specification that is loaded by name, the genesis configuration behind its preset, and the
  -- parachain ids of both.
  pub record Loaded (id : Bytes) : Type 0 where
    pub settings : Settings
    pub genesis : GenesisConfig
    pub loads : load_spec h id ≡ ok (h.build settings)
    pub preset : get_preset g settings.genesis_preset ≡ serialise g (g.to_value genesis)
    pub node_id : settings.extensions.para_id ≡ 1000
    pub genesis_id : genesis.parachain_id ≡ 2000

  abbrev pub IsNamed : Bytes → Type 0
  IsNamed id =
      (id ≡ codes "dev") ⊎ ((id ≡ codes "template-rococo") ⊎ ((id ≡ []) ⊎ (id ≡ codes "local")))

  abbrev pub preset_config : GenesisConfig
  preset_config =
      testnet_config g (collator g (codes "Alice") ∷ collator g (codes "Bob") ∷ [])
        (map g.get_account_id_from_seed (endowed_seeds g))
        (g.get_account_id_from_seed (codes "Alice")) 2000

  preset_id : preset_config.parachain_id ≡ 2000
  unfolding testnet_config
  preset_id = refl

  module _ (code : Bytes) (built : h.wasm_binary ≡ some code)
      (dev : g.dev_runtime_preset ≡ h.dev_runtime_preset)
      (local_preset : g.local_testnet_runtime_preset ≡ h.local_testnet_runtime_preset) where
    dev_preset : get_preset g h.dev_runtime_preset ≡ serialise g (g.to_value preset_config)
    unfolding get_preset
    dev_preset = either_key h.dev_runtime_preset _ _ _ (some none) (inr (sym dev))

    local_testnet_preset :
        get_preset g h.local_testnet_runtime_preset ≡ serialise g (g.to_value preset_config)
    unfolding get_preset
    local_testnet_preset =
        either_key h.local_testnet_runtime_preset _ _ _ (some none) (inl (sym local_preset))

    Loaded-local :
        (id : Bytes)
        → load_spec h id ≡ with_binary h (local_testnet_settings h) h.wasm_binary
        → Loaded id
    Loaded-local id e = record {
      settings = local_testnet_settings h code;
      genesis = preset_config;
      loads = e ∙ rw built refl;
      preset = local_testnet_preset;
      node_id = refl;
      genesis_id = preset_id;
    }

    -- With a built runtime, and with the same preset names in the node and in the runtime: each name
    -- that the node knows loads, its genesis is the runtime's preset, the node runs as parachain
    -- 1000, and that genesis says 2000.
    pub named_para_ids : (id : Bytes) → IsNamed id → Loaded id
    unfolding load_spec
    named_para_ids id (inl e) = record {
      settings = development_settings h code;
      genesis = preset_config;
      loads = rw e (rw built refl);
      preset = dev_preset;
      node_id = refl;
      genesis_id = preset_id;
    }
    named_para_ids id (inr (inl e)) = Loaded-local id (rw e refl)
    named_para_ids id (inr (inr (inl e))) = Loaded-local id (rw e refl)
    named_para_ids id (inr (inr (inr e))) = Loaded-local id (rw e refl)
