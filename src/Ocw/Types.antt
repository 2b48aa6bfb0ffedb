-- ===== src/Ocw/Types.antt =====
-- Storage, events and errors of the ocw pallet (pallets/ocw-pallet/src/lib.rs), and the balances
-- that it works on.
use my_polkadot_orcale.Prelude.{
  ℕ, ◌+◌, ◌-◌, ◌≤◌, ◌≡◌, Bytes, Option, some, List, ◌++◌, ◌∷◌, [], StoreMap, Exec, min,
}
use my_polkadot_orcale.Model.{Hash, AccountId}
use my_polkadot_orcale.Frame.{Frame, DispatchError}

-- `pallet_balances`, with `L` for its ledger: the calls that the pallet makes, and what they are
-- documented to do. `reserve` fails or moves the amount from the free to the reserved balance,
-- `unreserve` moves back as much as is there, `slash_reserved` takes as much as is there and hands
-- it out as an imbalance beside what it could not take, and `resolve_creating` pays an imbalance
-- into an account that exists.
pub record Balances (L : Type 0) : Type 0 where
  pub free_balance : L → AccountId → ℕ
  pub reserved_balance : L → AccountId → ℕ
  pub minimum_balance : ℕ
  pub reserve : L → AccountId → ℕ → Option L
  pub unreserve : L → AccountId → ℕ → L
  pub slash_reserved : L → AccountId → ℕ → ℕ × ℕ × L
  pub resolve_creating : L → AccountId → ℕ → L
  pub make_free_balance_be : L → AccountId → ℕ → L
  pub reserve_lem :
      (l l' : L) (a : AccountId) (n : ℕ)
      → reserve l a n ≡ some l'
      → (n ≤ free_balance l a)
        × (free_balance l' a ≡ free_balance l a - n)
        × (reserved_balance l' a ≡ reserved_balance l a + n)
  pub unreserve_lem :
      (l : L) (a : AccountId) (n : ℕ)
      → (free_balance (unreserve l a n) a ≡ free_balance l a + min n (reserved_balance l a))
        × (reserved_balance (unreserve l a n) a ≡ reserved_balance l a - n)
  pub slash_reserved_lem :
      (l : L) (a : AccountId) (n : ℕ)
      → ((slash_reserved l a n).0 ≡ min n (reserved_balance l a))
        × ((slash_reserved l a n).1 ≡ n - reserved_balance l a)
        × (reserved_balance (slash_reserved l a n).2 a ≡ reserved_balance l a - n)
        × ((b : AccountId) → free_balance (slash_reserved l a n).2 b ≡ free_balance l b)
  pub resolve_creating_lem :
      (l : L) (a : AccountId) (n : ℕ)
      → minimum_balance ≤ free_balance l a
      → (free_balance (resolve_creating l a n) a ≡ free_balance l a + n)
        × ((b : AccountId) → reserved_balance (resolve_creating l a n) b ≡ reserved_balance l b)
  pub make_free_balance_be_lem :
      (l : L) (a : AccountId) (n : ℕ)
      → minimum_balance ≤ n
      → free_balance (make_free_balance_be l a n) a ≡ n

pub record Meta : Type 0 where
  pub total_stake : ℕ
  pub credit_score : ℕ
  pub nominators : List (AccountId × ℕ)

pub data Event : Type 0 where
  new_price : (price : ℕ) (maybe_who : Option AccountId) → Event
  unsigned_tx : (at_block : ℕ) → Event
  add_new_url : (who : AccountId) (size : ℕ) → Event
  processor_staked : (who : AccountId) (amount : ℕ) → Event
  processor_remove : (who : AccountId) → Event
  slash_event : (who : AccountId) (slash_amount remaining_reserved : ℕ) → Event
  treasury_acc : (who : AccountId) (free : ℕ) → Event

pub data Error : Type 0 where
  unresolve_origin url_too_long bytes_too_long hashing_problem : Error
  insufficient_fund already_staked non_existed duplicated : Error

-- `trait Config`; `treasury` is the account of `MyPalletId`.
pub record Config (L : Type 0) : Type 0 where
  pub grace_period : ℕ
  pub unsigned_interval : ℕ
  pub unsigned_priority : ℕ
  pub max_prices : ℕ
  pub min_stake_amount : ℕ
  pub max_nomiators : ℕ
  pub treasury : AccountId
  pub frame : Frame
  pub open frame use *
  pub balances : Balances L
  pub open balances use *

pub record State (L : Type 0) : Type 0 where
  pub prices : List ℕ
  pub api_url_store : StoreMap (AccountId × ℕ) Bytes
  pub hash_store : StoreMap Bytes Hash
  pub staked_processors : StoreMap AccountId Meta
  pub next_unsigned_at : ℕ
  pub block_number : ℕ
  pub events : List Event
  pub ledger : L

abbrev pub Dispatch : Type 0 → Type 0 → Type 0
Dispatch L = Exec (State L) (DispatchError Error)

abbrev pub deposit_event : {L : Type 0} → Event → State L → State L
deposit_event e s = record s { events = s.events ++ e ∷ [] }
