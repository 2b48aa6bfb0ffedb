-- ===== src/Runtime/Contracts.antt =====
-- What contracts may call, and what a run of a contract through the node's interface is given when
-- the caller leaves limits out (runtime/src/configs/contracts.rs, runtime/src/configs/revive.rs,
-- runtime/src/apis.rs), and who executes XCM for free (runtime/src/configs/xcm.rs).
use my_polkadot_orcale.Prelude.{
  ℕ, ◌*◌, ◌-◌, ◌^◌, ◌≤◌, ◌<◌, ◌≡◌, refl, Bytes, Bool, true, false, Option, none, some, List, [],
  ◌∷◌, arith, nat_beq,
}
use my_polkadot_orcale.Model.{AccountId, Hash}
use my_polkadot_orcale.Runtime.{deposit}
use my_polkadot_orcale.Runtime.Weights.{Weight}

-- A call of the runtime: of the balances pallet, or of another by its index.
pub data BalancesCall : Type 0 where
  transfer_allow_death : (dest : AccountId) (value : ℕ) → BalancesCall
  other_balances_call : BalancesCall

pub data RuntimeCall : Type 0 where
  balances : BalancesCall → RuntimeCall
  other_pallet : (index : ℕ) → RuntimeCall

-- `AllowBalancesCall::contains`, the filter of both kinds of contracts.
unfoldable pub allows : RuntimeCall → Bool
allows (balances (transfer_allow_death dest value)) = true
allows _ = false

-- `DummyRandomness::random`: the default hash and block number, whatever the subject.
abbrev pub random : Bytes → Hash × ℕ
random subject = (0, 0)

abbrev pub runtime_memory : ℕ
runtime_memory = 1024 * 1024 * 1024

abbrev pub validator_runtime_memory : ℕ
validator_runtime_memory = 1024 * 1024 * 1024 * 2

abbrev pub deposit_per_item : ℕ
unfolding deposit
deposit_per_item = deposit 1 0

abbrev pub deposit_per_byte : ℕ
unfolding deposit
deposit_per_byte = deposit 0 1

abbrev pub default_deposit_limit : ℕ
unfolding deposit
default_deposit_limit = deposit 1024 (1024 * 1024)

-- `unwrap_or`
abbrev pub unwrap_or : {A : Type 0} → A → Option A → A
unwrap_or d none = d
unwrap_or d (some x) = x

-- A call or an instantiation as it reaches a contracts pallet.
pub record BareCall (Limit Target : Type 0) : Type 0 where
  pub origin : AccountId
  pub target : Target
  pub value : ℕ
  pub gas_limit : Weight
  pub storage_deposit_limit : Limit
  pub input_data : Bytes

module _ {Target : Type 0} (max_block : Weight) where
  -- `ContractsApi::call` and `instantiate`: no limit on the deposit is left to the pallet, which has
  -- a default of its own.
  unfoldable pub contracts_call :
      AccountId → Target → ℕ → Option Weight → Option ℕ → Bytes → BareCall (Option ℕ) Target
  contracts_call origin dest value gas_limit storage_deposit_limit input_data = record {
    origin = origin;
    target = dest;
    value = value;
    gas_limit = unwrap_or max_block gas_limit;
    storage_deposit_limit = storage_deposit_limit;
    input_data = input_data;
  }

  -- `ReviveApi::call` and `instantiate`: no limit is the greatest number.
  unfoldable pub revive_call :
      AccountId → Target → ℕ → Option Weight → Option ℕ → Bytes → BareCall ℕ Target
  revive_call origin dest value gas_limit storage_deposit_limit input_data = record {
    origin = origin;
    target = dest;
    value = value;
    gas_limit = unwrap_or max_block gas_limit;
    storage_deposit_limit = unwrap_or (2 ^ 128 - 1) storage_deposit_limit;
    input_data = input_data;
  }

  -- Through both interfaces a contract gets the whole block where its caller names no gas limit, and
  -- the limits that the caller names as they are; only the second turns a missing limit on the
  -- deposit into a number, which no 128-bit deposit exceeds.
  pub limits :
      (origin : AccountId) (dest : Target) (value : ℕ) (gas : Option Weight) (limit : Option ℕ)
      (input : Bytes)
      → let a = contracts_call origin dest value gas limit input in
        let b = revive_call origin dest value gas limit input in
        (a.gas_limit ≡ b.gas_limit)
        × (gas ≡ none → a.gas_limit ≡ max_block)
        × ((g : Weight) → gas ≡ some g → a.gas_limit ≡ g)
        × ((n : ℕ)
            → limit ≡ some n
            → (a.storage_deposit_limit ≡ some n) × (b.storage_deposit_limit ≡ n))
        × (limit ≡ none
            → (a.storage_deposit_limit ≡ none)
              × ((n : ℕ) → n < 2 ^ 128 → n ≤ b.storage_deposit_limit))
  unfolding contracts_call revive_call
  limits origin dest value gas limit input = (
    refl,
    (λ e. ground arith),
    (λ g e. ground arith),
    (λ n e. (e, ground arith)),
    λ e. (e, λ n h. ground (arith, h)),
  )

-- `Location::unpack`: the number of parents and the junctions.
pub data BodyId : Type 0 where
  executive other_body : BodyId

pub data Junction : Type 0 where
  plurality : BodyId → Junction
  other_junction : Junction

-- `ParentOrParentsExecutivePlurality::contains`
unfoldable pub is_parent_or_executive : ℕ × List Junction → Bool
is_parent_or_executive (parents, []) = nat_beq parents 1
is_parent_or_executive (parents, plurality executive ∷ []) = nat_beq parents 1
is_parent_or_executive _ = false
