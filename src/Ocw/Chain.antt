-- ===== src/Ocw/Chain.antt =====
-- Histories of the ocw pallet: calls with a signed or root origin, unsigned calls that the check of
-- unsigned transactions lets in, changes of the balances from elsewhere, and new blocks, in any
-- order.
use my_polkadot_orcale.Prelude.{suc, ◌≡◌, Bytes, Bool, true, false, nat_eq, pair_eq}
use my_polkadot_orcale.Model.{Origin}
use my_polkadot_orcale.Frame.{valid, ValidTransaction}
use my_polkadot_orcale.Ocw.Types.{Config, State, Dispatch}
use my_polkadot_orcale.Ocw.Prices.{
  PricePayload, submit_price, submit_price_unsigned, submit_price_unsigned_with_signed_payload,
}
use my_polkadot_orcale.Ocw.Staking.{stake, un_stake, slash, test_acc, submit_api_url}
use my_polkadot_orcale.Ocw.Unsigned.{Call, validate_unsigned}

module _ {L : Type 0} (c : Config L) where
  -- A call of a transaction is dispatched to its function.
  unfoldable pub dispatch : Call → Origin → Dispatch L (Unit {0})
  dispatch (Call.stake amount) origin = stake c origin amount
  dispatch Call.un_stake origin = un_stake c origin
  dispatch (Call.slash target amount) origin = slash c origin target amount
  dispatch Call.test_acc origin = test_acc c origin
  dispatch (Call.submit_price price) origin = submit_price c origin price
  dispatch (Call.submit_price_unsigned block_number price) origin =
      submit_price_unsigned c origin block_number price
  dispatch (Call.submit_price_unsigned_with_signed_payload payload signature) origin =
      submit_price_unsigned_with_signed_payload c origin payload signature
  dispatch (Call.submit_api_url topic_id api_url) origin = submit_api_url c origin topic_id api_url

  -- FRAME checks an unsigned transaction again before it dispatches its call.
  module _ (verify : PricePayload → Bytes → Bool) where
    pub data Step : State L → State L → Type 0 where
      called :
          (s : State L) (call : Call) (o : Origin)
          → c.ensure_none o ≡ false
          → Step s (dispatch call o s).1
      called_unsigned :
          (s : State L) (call : Call) (o : Origin) (v : ValidTransaction)
          → c.ensure_none o ≡ true
          → validate_unsigned c verify s call ≡ valid v
          → Step s (dispatch call o s).1
      -- another pallet moves balances, or a fee is taken
      ledger_moves : (s : State L) (ledger : L) → Step s (record s { ledger = ledger })
      next_block : (s : State L) → Step s (record s { block_number = suc s.block_number })

    pub data Reach (s : State L) : State L → Type 0 where
      here : Reach s s
      next : {t u : State L} → Reach s t → Step t u → Reach s u
