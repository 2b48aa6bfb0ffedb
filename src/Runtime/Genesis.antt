-- ===== src/Runtime/Genesis.antt =====
-- The genesis configurations of the runtime (runtime/src/genesis_config_presets.rs). A text is given
-- by its bytes; the fields left to `Default` are not written out.
use my_polkadot_orcale.Prelude.{
  ℕ, ◌*◌, ◌^◌, Bytes, ◌≢◌, Option, none, some, List, [], ◌∷◌, map, codes, bytes_eq, ◌==◌,
  if◌then◌else◌,
}
use my_polkadot_orcale.Model.{AccountId}
use my_polkadot_orcale.Runtime.{existential_deposit}

-- `sr25519` public keys of collators.
abbrev pub AuraId : Type 0
AuraId = ℕ

pub record SessionKeys : Type 0 where
  pub aura : AuraId

pub record GenesisConfig : Type 0 where
  pub balances : List (AccountId × ℕ)
  pub parachain_id : ℕ
  pub invulnerables : List AccountId
  pub candidacy_bond : ℕ
  pub session_keys : List (AccountId × (AccountId × SessionKeys))
  pub safe_xcm_version : Option ℕ
  pub sudo_key : Option AccountId

-- Keys from seeds, the version of XCM, the names of the two presets, and serde_json.
pub record GenesisHost (Value : Type 0) : Type 0 where
  pub get_account_id_from_seed : Bytes → AccountId
  pub get_collator_keys_from_seed : Bytes → AuraId
  pub xcm_version : ℕ
  pub dev_runtime_preset : Bytes
  pub local_testnet_runtime_preset : Bytes
  pub presets_differ : dev_runtime_preset ≢ local_testnet_runtime_preset
  pub to_value : GenesisConfig → Option Value
  pub to_string : Value → Option Bytes

abbrev pub template_session_keys : AuraId → SessionKeys
template_session_keys keys = record { aura = keys }

module _ {Value : Type 0} (h : GenesisHost Value) where
  -- The configuration that `testnet_genesis` serialises.
  unfoldable pub testnet_config :
      List (AccountId × AuraId) → List AccountId → AccountId → ℕ → GenesisConfig
  testnet_config invulnerables endowed_accounts root id = record {
    balances = map (λ k. (k, 2 ^ 60)) endowed_accounts;
    parachain_id = id;
    invulnerables = map (λ x. x.0) invulnerables;
    candidacy_bond = existential_deposit * 16;
    session_keys = map (λ x. (x.0, (x.0, template_session_keys x.1))) invulnerables;
    safe_xcm_version = some h.xcm_version;
    sudo_key = some root;
  }

  -- `none` is a panic of `expect`.
  abbrev pub testnet_genesis :
      List (AccountId × AuraId) → List AccountId → AccountId → ℕ → Option Value
  testnet_genesis invulnerables endowed root id =
      h.to_value (testnet_config invulnerables endowed root id)

  abbrev pub collator : Bytes → AccountId × AuraId
  collator seed = (h.get_account_id_from_seed seed, h.get_collator_keys_from_seed seed)

  abbrev pub endowed_seeds : List Bytes
  endowed_seeds =
      codes "Alice"
      ∷ codes "Bob"
      ∷ codes "Charlie"
      ∷ codes "Dave"
      ∷ codes "Eve"
      ∷ codes "Ferdie"
      ∷ codes "Alice//stash"
      ∷ codes "Bob//stash"
      ∷ codes "Charlie//stash"
      ∷ codes "Dave//stash"
      ∷ codes "Eve//stash"
      ∷ codes "Ferdie//stash"
      ∷ []

  abbrev pub local_testnet_genesis : Option Value
  local_testnet_genesis =
      testnet_genesis (collator (codes "Alice") ∷ collator (codes "Bob") ∷ [])
        (map h.get_account_id_from_seed endowed_seeds) (h.get_account_id_from_seed (codes "Alice"))
        2000

  abbrev pub development_config_genesis : Option Value
  development_config_genesis =
      testnet_genesis (collator (codes "Alice") ∷ collator (codes "Bob") ∷ [])
        (map h.get_account_id_from_seed endowed_seeds) (h.get_account_id_from_seed (codes "Alice"))
        2000

  -- The end of `get_preset`: the outer `none` is a panic, the inner one is `None`.
  abbrev pub serialise : Option Value → Option (Option Bytes)
  serialise none = none
  serialise (some patch) = elim (h.to_string patch) [ none ↦ none | some s ↦ some (some s) ]

  unfoldable pub get_preset : Bytes → Option (Option Bytes)
  get_preset id =
      if id == h.local_testnet_runtime_preset
      then serialise local_testnet_genesis
      else if id == h.dev_runtime_preset
      then serialise development_config_genesis
      else some none

  abbrev pub preset_names : List Bytes
  preset_names = h.dev_runtime_preset ∷ h.local_testnet_runtime_preset ∷ []
