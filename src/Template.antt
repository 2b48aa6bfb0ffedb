-- ===== src/Template.antt =====
-- The template pallet (pallets/template/src/lib.rs): one stored block number.
use my_polkadot_orcale.Prelude.{
  ℕ, ◌+◌, ◌≡◌, ◌<◌, ◌≤◌, Option, none, some, List, [], ◌∷◌, ◌++◌, u32_mod, ltb, ok, err, Exec, gets,
  modify, ok_or, ◌>>=◌, ◌>>◌, if◌then◌else◌, arith,
}
use my_polkadot_orcale.Model.{Origin, AccountId}
use my_polkadot_orcale.Frame.{DispatchError, bad_origin, pallet_error}

pub record CompositeStruct : Type 0 where
  pub block_number : ℕ

pub data Event : Type 0 where
  something_stored : (block_number : ℕ) (who : AccountId) → Event

pub data Error : Type 0 where
  none_value storage_overflow : Error

pub record State : Type 0 where
  pub something : Option CompositeStruct
  pub events : List Event

-- `checked_add(&One::one())` on the runtime's 32-bit block number.
abbrev pub incremented : ℕ → Option ℕ
incremented n = if ltb (n + 1) u32_mod then some (n + 1) else none

-- The signer of an origin, by `ensure_signed`, is a parameter.
module _ (ensure_signed : Origin → Option AccountId) where
  unfoldable pub do_something : Origin → ℕ → Exec State (DispatchError Error) (Unit {0})
  do_something origin bn = do
    who ← ok_or (ensure_signed origin) bad_origin
    modify (λ s. record s { something = some (record { block_number = bn }) })
    modify (λ s. record s { events = s.events ++ something_stored bn who ∷ [] })

  abbrev pub increment : CompositeStruct → Exec State (DispatchError Error) (Unit {0})
  increment old = do
    next ← ok_or (incremented old.block_number) (pallet_error storage_overflow)
    modify (λ s. record s { something = some (record { block_number = next }) })

  unfoldable pub cause_error : Origin → Exec State (DispatchError Error) (Unit {0})
  cause_error origin = do
    who ← ok_or (ensure_signed origin) bad_origin
    stored ← gets (λ s. s.something)
    old ← ok_or stored (pallet_error none_value)
    increment old

  -- Storing `n` and then calling `cause_error`, both signed, leaves `n + 1` where that is still a
  -- 32-bit number; where it is not, the second call fails and the stored number stays.
  pub cause_error-do_something :
      (o o' : Origin) (who who' : AccountId) (n : ℕ) (s : State)
      → ensure_signed o ≡ some who
      → ensure_signed o' ≡ some who'
      → let s₁ = (do_something o n s).1 in
        (n + 1 < u32_mod
          → ((cause_error o' s₁).0 ≡ ok tt)
            × ((cause_error o' s₁).1.something ≡ some (record { block_number = n + 1 })))
        × (u32_mod ≤ n + 1 → cause_error o' s₁ ≡ (err (pallet_error storage_overflow), s₁))
  unfolding do_something cause_error
  cause_error-do_something o o' who who' n s e e' =
      ((λ h. (ground arith, ground arith)), (λ h. ground arith))
