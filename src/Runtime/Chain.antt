-- ===== src/Runtime/Chain.antt =====
-- The runtime with both of its own pallets (`mod runtime` of runtime/src/lib.rs): one chain on which
-- their calls, the unsigned ones checked by the pallet of the call, are mixed with calls of the
-- other pallets, which move balances, and with new blocks, for both pallets at once.
use my_polkadot_orcale.Prelude.{
  suc, Bytes, Bool, true, false, ◌≡◌, Option, some, StoreMap, bytes_eq, nat_eq, pair_eq,
}
use my_polkadot_orcale.Model.{Hash, AccountId, Origin}
use my_polkadot_orcale.Frame.{Frame, TransactionValidity, valid, ValidTransaction}
use my_polkadot_orcale.Wasmstore.Types as Wasmstore
use my_polkadot_orcale.Wasmstore.Types.{OcwJob}
use my_polkadot_orcale.Wasmstore.Calls as Calls
use my_polkadot_orcale.Wasmstore.Unsigned as Unsigned
use my_polkadot_orcale.Ocw.Types as Ocw
use my_polkadot_orcale.Ocw.Types.{Balances}
use my_polkadot_orcale.Ocw.Prices.{PricePayload}
use my_polkadot_orcale.Ocw.Chain as OcwChain
use my_polkadot_orcale.Ocw.Unsigned as OcwUnsigned
use my_polkadot_orcale.Runtime.{wasmstore_config, ocw_config}

-- The storage of both pallets; the balances are in that of the ocw pallet.
pub record Storage (L : Type 0) : Type 0 where
  pub wasmstore : Wasmstore.State
  pub ocw : Ocw.State L

-- The calls of both pallets, out of all that the runtime has.
pub data RuntimeCall : Type 0 where
  ocw_pallet : OcwUnsigned.Call → RuntimeCall
  wasm_store_pallet : Wasmstore.Call → RuntimeCall

module _ {L : Type 0} (treasury : AccountId) (frame : Frame) (encode_job : OcwJob → Bytes)
    (iter : StoreMap Hash OcwJob → StoreMap Hash OcwJob) (balances : Balances L)
    (verify : PricePayload → Bytes → Bool) where
  abbrev pub wasmstore : Wasmstore.Config
  wasmstore = wasmstore_config frame encode_job iter

  abbrev pub ocw : Ocw.Config L
  ocw = ocw_config treasury frame balances

  unfoldable pub dispatch : RuntimeCall → Origin → Storage L → Storage L
  dispatch (ocw_pallet call) o s = record s { ocw = (OcwChain.dispatch ocw call o s.ocw).1 }
  dispatch (wasm_store_pallet call) o s = record s {
    wasmstore = (Calls.dispatch wasmstore call o s.wasmstore).1;
  }

  -- `none` is a panic.
  unfoldable pub validate_unsigned : Storage L → RuntimeCall → Option TransactionValidity
  validate_unsigned s (ocw_pallet call) = some (OcwUnsigned.validate_unsigned ocw verify s.ocw call)
  validate_unsigned s (wasm_store_pallet call) =
      Unsigned.validate_unsigned wasmstore s.wasmstore call

  pub data Step : Storage L → Storage L → Type 0 where
    called :
        (s : Storage L) (call : RuntimeCall) (o : Origin)
        → frame.ensure_none o ≡ false
        → Step s (dispatch call o s)
    called_unsigned :
        (s : Storage L) (call : RuntimeCall) (o : Origin) (v : ValidTransaction)
        → frame.ensure_none o ≡ true
        → validate_unsigned s call ≡ some (valid v)
        → Step s (dispatch call o s)
    -- a call of another pallet, or a fee
    ledger_moves :
        (s : Storage L) (ledger : L) → Step s (record s { ocw = record s.ocw { ledger = ledger } })
    next_block :
        (s : Storage L)
        → Step s (record s {
          wasmstore = record s.wasmstore { block_number = suc s.wasmstore.block_number };
          ocw = record s.ocw { block_number = suc s.ocw.block_number };
        })

  pub data Reach (s : Storage L) : Storage L → Type 0 where
    here : Reach s s
    next : {t u : Storage L} → Reach s t → Step t u → Reach s u
