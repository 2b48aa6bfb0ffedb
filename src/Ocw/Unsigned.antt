-- ===== src/Ocw/Unsigned.antt =====
-- `validate_unsigned` of the ocw pallet.
use my_polkadot_orcale.Prelude.{
  ℕ, ◌-◌, Bytes, Bool, true, Option, none, some, [], ◌∷◌, ltb, saturating_add64, codes,
  if◌then◌else◌,
}
use my_polkadot_orcale.Model.{AccountId}
use my_polkadot_orcale.Frame.{TransactionValidity, valid, invalid, call, future, stale, bad_proof}
use my_polkadot_orcale.Ocw.Types.{Config, State}
use my_polkadot_orcale.Ocw.Prices.{average_price, PricePayload}

-- The dispatchable calls of the pallet.
pub data Call : Type 0 where
  stake : (stake_amount : ℕ) → Call
  un_stake : Call
  slash : (mock_target : AccountId) (slash_amount : ℕ) → Call
  test_acc : Call
  submit_price : (price : ℕ) → Call
  submit_price_unsigned : (block_number price : ℕ) → Call
  submit_price_unsigned_with_signed_payload :
      (price_payload : PricePayload) (signature : Bytes) → Call
  submit_api_url : (topic_id : ℕ) (api_url : Bytes) → Call

-- How far a price is from the average, zero with no price yet.
unfoldable pub deviation : Option ℕ → ℕ → ℕ
deviation none new_price = 0
deviation (some price) new_price =
    if ltb new_price price then price - new_price else new_price - price

module _ {L : Type 0} (c : Config L) where
  unfoldable pub validate_transaction_parameters : State L → ℕ → ℕ → TransactionValidity
  validate_transaction_parameters s block_number new_price =
      if ltb block_number s.next_unsigned_at
      then invalid stale
      else if ltb s.block_number block_number
      then invalid future
      else valid (record {
        prefix = codes "OffchainWorker";
        priority =
            saturating_add64 c.unsigned_priority (deviation (average_price s.prices) new_price);
        provides = s.next_unsigned_at ∷ [];
        longevity = 5;
        propagate = true;
      })

  -- `SignedPayload::verify` is a parameter.
  unfoldable pub validate_unsigned :
      (PricePayload → Bytes → Bool) → State L → Call → TransactionValidity
  validate_unsigned verify s (submit_price_unsigned_with_signed_payload payload signature) =
      if verify payload signature
      then validate_transaction_parameters s payload.block_number payload.price
      else invalid bad_proof
  validate_unsigned verify s (submit_price_unsigned block_number price) =
      validate_transaction_parameters s block_number price
  validate_unsigned verify s _ = invalid call
