-- ===== src/Runtime.antt =====
-- The runtime's units and deposits (runtime/src/lib.rs) and the constants that it gives to the
-- pallets (runtime/src/configs/mod.rs).
pub mod Genesis
pub mod Presets
pub mod Weights
pub mod Signing
pub mod Contracts
pub mod Chain
pub mod History
use my_polkadot_orcale.Model.{Hash, AccountId, Origin}
use my_polkadot_orcale.Frame.{Frame}
use my_polkadot_orcale.Wasmstore.Types as Wasmstore
use my_polkadot_orcale.Wasmstore.Types.{OcwJob}
use my_polkadot_orcale.Ocw.Types as Ocw
use my_polkadot_orcale.Ocw.Types.{Balances}
use my_polkadot_orcale.Ocw.Staking.{stake}
use my_polkadot_orcale.Ocw.Stakes.{stake-Staked}
use my_polkadot_orcale.Prelude.{
  ℕ, ◌+◌, ◌*◌, ◌/◌, ◌^◌, ◌<◌, ◌≡◌, u32_mod, arith, Bytes, StoreMap, ok, some,
}

abbrev pub unit : ℕ
unit = 1000000000000

abbrev pub milliunit : ℕ
milliunit = 1000000000

-- `deposit(items, bytes)`, in `u128`.
unfoldable pub deposit : ℕ → ℕ → ℕ
deposit items bytes = (items * unit + bytes * (5 * milliunit / 100)) / 10

abbrev pub existential_deposit : ℕ
existential_deposit = milliunit

-- `impl wasmstore_pallet::Config for Runtime`; `MaxResultSubmition` is `()`, which gives zero.
abbrev pub wasmstore_config :
    Frame → (OcwJob → Bytes) → (StoreMap Hash OcwJob → StoreMap Hash OcwJob) → Wasmstore.Config
wasmstore_config frame encode_job iter = record {
  max_script_size = 524288;
  max_script_storage_cap = 500;
  max_script_key_len = 512;
  max_string_size = 256;
  max_result_size = 1024;
  max_result_submition = 0;
  max_jobs = 25;
  unsigned_priority = 3;
  frame = frame;
  encode_job = encode_job;
  iter = iter;
}

-- `impl ocw_pallet::Config for Runtime`
abbrev pub ocw_config : {L : Type 0} → AccountId → Frame → Balances L → Ocw.Config L
ocw_config treasury frame balances = record {
  grace_period = 3;
  unsigned_interval = 3;
  unsigned_priority = 3;
  max_prices = 500;
  min_stake_amount = 1;
  max_nomiators = 16;
  treasury = treasury;
  frame = frame;
  balances = balances;
}

-- Deposits add up without rounding, and for 32-bit numbers of items and bytes nothing on the way to
-- a deposit leaves the 128-bit balance.
pub deposit-add :
    (items items' bytes bytes' : ℕ)
    → (deposit (items + items') (bytes + bytes') ≡ deposit items bytes + deposit items' bytes')
      × (items < u32_mod → bytes < u32_mod → items * unit + bytes * (5 * milliunit / 100) < 2 ^ 128)
unfolding deposit
deposit-add items items' bytes bytes' = (omega arith, (λ h k. omega arith))

-- In this runtime the only amount that an account can stake is zero: the configured minimum is one,
-- and `stake` accepts amounts below the minimum.
pub stake-zero :
    {L : Type 0} (treasury : AccountId) (frame : Frame) (balances : Balances L) (origin : Origin)
    (who amount : ℕ) (s : Ocw.State L)
    → let c = ocw_config treasury frame balances in
      c.ensure_signed origin ≡ some who → (stake c origin amount s).0 ≡ ok tt → amount ≡ 0
stake-zero treasury frame balances origin who amount s signed h =
    let accepted = stake-Staked (ocw_config treasury frame balances) origin who amount s signed h in
    omega (arith, accepted.0)
