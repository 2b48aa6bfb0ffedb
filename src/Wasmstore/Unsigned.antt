-- ===== src/Wasmstore/Unsigned.antt =====
-- `validate_unsigned` of the wasmstore pallet, and the pool's pipeline for unsigned calls.
use my_polkadot_orcale.Prelude.{ℕ, true, Option, some, [], ltb, nat_beq, codes, if◌then◌else◌}
use mathlib.Core.Option
use my_polkadot_orcale.Model.{Hash}
use my_polkadot_orcale.Frame.{TransactionValidity, valid, invalid, call, future, bad_proof}
use my_polkadot_orcale.Wasmstore.Types.{Config, State, Call}

module _ (c : Config) where
  -- `key.is_clear()`: the hash is all zeros.
  unfoldable pub validate_unsiged_transaction : State → ℕ → Hash → TransactionValidity
  validate_unsiged_transaction s block_number key =
      if ltb s.block_number block_number
      then invalid future
      else if nat_beq key 0
      then invalid bad_proof
      else valid (record {
        prefix = codes "WasmstoreJobWorker";
        priority = c.unsigned_priority;
        provides = [];
        longevity = 5;
        propagate = true;
      })

  -- `none` is a panic: the key of a result does not decode.
  unfoldable pub validate_unsigned : State → Call → Option TransactionValidity
  unfolding validate_unsiged_transaction
  validate_unsigned s (Call.change_job_state block_number key) =
      some (validate_unsiged_transaction s block_number key)
  validate_unsigned s (Call.submit_result_unsiged block_number key value pk ext_time) =
      Option.map (validate_unsiged_transaction s block_number) (c.decode_hash key)
  validate_unsigned s _ = some (invalid call)
