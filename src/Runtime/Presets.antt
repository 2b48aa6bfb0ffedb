-- ===== src/Runtime/Presets.antt =====
-- What the genesis presets agree on, and what a chain starts with.
use my_polkadot_orcale.Prelude.{
  ℕ, ◌*◌, ◌^◌, ◌+◌, ◌≤◌, Bytes, ◌≡◌, ◌≢◌, ◌↔◌, ◌⊎◌, inl, inr, refl, Option, none, some, List, [],
  ◌∷◌, map, bytes_eq, bytes_beq_iff, arith, All, IsIn, length, ap, ◌==◌, if◌then◌else◌,
}
use my_polkadot_orcale.Model.{AccountId}
use my_polkadot_orcale.Runtime.{existential_deposit}
use my_polkadot_orcale.Runtime.Genesis.{
  GenesisConfig, SessionKeys, GenesisHost, AuraId, serialise, template_session_keys, testnet_config,
  get_preset, local_testnet_genesis, development_config_genesis,
}

-- An account is in a list of balances with at least this amount.
abbrev pub HasAtLeast : ℕ → AccountId → List (AccountId × ℕ) → Type 0
HasAtLeast n a [] = ⊥
HasAtLeast n a ((b, amount) ∷ rest) = ((a ≡ b) × (n ≤ amount)) ⊎ HasAtLeast n a rest

abbrev pub total : List (AccountId × ℕ) → ℕ
total [] = 0
total ((a, n) ∷ rest) = n + total rest

abbrev endow : AccountId → AccountId × ℕ
endow k = (k, 2 ^ 60)

endowed-HasAtLeast :
    (a : AccountId) (endowed : List AccountId)
    → IsIn a endowed
    → HasAtLeast (existential_deposit * 16) a (map endow endowed)
endowed-HasAtLeast a [] h = h
endowed-HasAtLeast a (b ∷ endowed) (inl e) = inl (e, omega arith)
endowed-HasAtLeast a (b ∷ endowed) (inr h) = inr (endowed-HasAtLeast a endowed h)

total-endowed : (endowed : List AccountId) → total (map endow endowed) ≡ length endowed * 2 ^ 60
total-endowed [] = omega arith
total-endowed (a ∷ endowed) = omega (arith, total-endowed endowed)

-- A choice between two answers by two keys.
answers_iff :
    (id k j : Bytes) (x y : Option (Option Bytes))
    → x ≢ some none
    → y ≢ some none
    → ((if id == k then x else if id == j then y else some none) ≡ some none)
      ↔ ((id ≢ j) × (id ≢ k))
answers_iff id k j x y nx ny = (
  λ e. (
    λ f. ground (arith, e, f, bytes_beq_iff id j),
    λ f. ground (arith, e, f, bytes_beq_iff id k),
  ),
  λ ne. ground (arith, ne.0, ne.1, bytes_beq_iff id j, bytes_beq_iff id k),
)

module _ {Value : Type 0} (h : GenesisHost Value) where
  serialise-answers : (v : Option Value) → serialise h v ≢ some none
  serialise-answers none e = cc
  serialise-answers (some patch) e = ground (arith, e)

  -- A preset has no answer exactly if its id is none of the two listed names, also where its
  -- serialisation would panic.
  pub get_preset-preset_names :
      (id : Bytes)
      → (get_preset h id ≡ some none)
        ↔ ((id ≢ h.dev_runtime_preset) × (id ≢ h.local_testnet_runtime_preset))
  unfolding get_preset
  get_preset-preset_names id =
      answers_iff id h.local_testnet_runtime_preset h.dev_runtime_preset _ _
        (serialise-answers (local_testnet_genesis h))
        (serialise-answers (development_config_genesis h))

  -- The collators that a genesis configuration names.
  pub record Starts (invulnerables : List (AccountId × AuraId)) (config : GenesisConfig)
      : Type 0 where
    pub keyed : map (λ k. k.0) config.session_keys ≡ config.invulnerables
    pub bonded : All (λ a. HasAtLeast config.candidacy_bond a config.balances) config.invulnerables

  firsts :
      (invulnerables : List (AccountId × AuraId))
      → map
          (λ (k : AccountId × (AccountId × SessionKeys)). k.0)
          (map (λ x. (x.0, (x.0, template_session_keys x.1))) invulnerables)
        ≡ map (λ x. x.0) invulnerables
  firsts [] = refl
  firsts (x ∷ rest) = ap (λ (t : List AccountId). x.0 ∷ t) (firsts rest)

  bonds_of :
      (invulnerables : List (AccountId × AuraId)) (endowed : List AccountId)
      → All (λ x. IsIn x.0 endowed) invulnerables
      → All
          (λ a. HasAtLeast (existential_deposit * 16) a (map endow endowed))
          (map (λ x. x.0) invulnerables)
  bonds_of [] endowed all = tt
  bonds_of (x ∷ rest) endowed all =
      (endowed-HasAtLeast x.0 endowed all.0, bonds_of rest endowed all.1)

  -- A genesis configuration whose collators are endowed starts with session keys for exactly its
  -- collators, each with at least the candidacy bond, and with 2^60 for each endowed account.
  pub testnet_config-Starts :
      (invulnerables : List (AccountId × AuraId)) (endowed : List AccountId) (root id : ℕ)
      → All (λ x. IsIn x.0 endowed) invulnerables
      → let config = testnet_config h invulnerables endowed root id in
        Starts invulnerables config × (total config.balances ≡ length endowed * 2 ^ 60)
  unfolding testnet_config
  testnet_config-Starts invulnerables endowed root id all = (
    record { keyed = firsts invulnerables; bonded = bonds_of invulnerables endowed all },
    total-endowed endowed,
  )
