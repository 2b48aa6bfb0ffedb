-- ===== src/Ocw/Prices.antt =====
-- The list of recent prices of the ocw pallet, its average, and the calls that add a price.
use my_polkadot_orcale.Prelude.{
  ℕ, ◌+◌, ◌/◌, ◌%◌, Bytes, Option, none, some, List, [], ◌∷◌, length, set, foldl, saturating_add32,
  u32_mod, ltb, nat_beq, gets, modify, ensure, ok_or, expect, ◌>>=◌, ◌>>◌, if◌then◌else◌,
}
use my_polkadot_orcale.Model.{Origin, AccountId, Public}
use my_polkadot_orcale.Frame.{bad_origin}
use my_polkadot_orcale.Ocw.Types.{Config, State, Dispatch, new_price, deposit_event}

-- `fold(0_u32, |a, b| a.saturating_add(*b))`
unfoldable pub saturating_sum : List ℕ → ℕ
saturating_sum = foldl saturating_add32 0

unfoldable pub average_price : List ℕ → Option ℕ
average_price [] = none
average_price (p ∷ ps) = some (saturating_sum (p ∷ ps) / length (p ∷ ps))

-- `PricePayload`
pub record PricePayload : Type 0 where
  pub block_number : ℕ
  pub price : ℕ
  pub public : Public

module _ {L : Type 0} (c : Config L) where
  -- The new list: the price is added, or, where the list is full, it takes the place that it names
  -- itself. `none` is a panic: a remainder by zero, or an index out of range.
  unfoldable pub push_price : ℕ → List ℕ → Option (List ℕ)
  push_price price prices = elim (c.try_push c.max_prices prices price) [
    | some ps ↦ some ps
    | none ↦
        (if nat_beq c.max_prices 0
          then none
          else if ltb (price % c.max_prices) (length prices)
          then some (set prices (price % c.max_prices) price)
          else none)
  ]

  unfoldable pub add_data : Option AccountId → ℕ → Dispatch L (Unit {0})
  add_data maybe_who price = do
    prices ← gets (λ s. s.prices)
    prices' ← expect (push_price price prices)
    modify (λ s. record s { prices = prices' })
    average ← expect (average_price prices')
    modify (deposit_event (new_price price maybe_who))

  unfoldable pub submit_price : Origin → ℕ → Dispatch L (Unit {0})
  submit_price origin price = do
    who ← ok_or (c.ensure_signed origin) bad_origin
    add_data (some who) price

  -- `NextUnsignedAt` is a block number, a `u32`.
  abbrev pub set_next : State L → State L
  set_next s = record s { next_unsigned_at = (s.block_number + c.unsigned_interval) % u32_mod }

  unfoldable pub submit_price_unsigned : Origin → ℕ → ℕ → Dispatch L (Unit {0})
  submit_price_unsigned origin block_number price = do
    ensure (c.ensure_none origin) bad_origin
    add_data none price
    modify set_next

  -- The signature was checked by `validate_unsigned` and is not looked at here.
  unfoldable pub submit_price_unsigned_with_signed_payload :
      Origin → PricePayload → Bytes → Dispatch L (Unit {0})
  submit_price_unsigned_with_signed_payload origin payload signature = do
    ensure (c.ensure_none origin) bad_origin
    add_data none payload.price
    modify set_next
