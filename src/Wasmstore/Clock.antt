-- ===== src/Wasmstore/Clock.antt =====
-- The block number, which no call of the wasmstore pallet moves.
use my_polkadot_orcale.Prelude.{◌≡◌, arith}
use my_polkadot_orcale.Model.{Origin}
use my_polkadot_orcale.Wasmstore.Types.{Config, State, Call}
use my_polkadot_orcale.Wasmstore.Calls.{
  upload_wasm, request_script_execution, change_job_state, submit_result_unsiged, get_collators_lts,
  dispatch,
}

pub dispatch-block :
    (c : Config) (call : Call) (o : Origin) (s : State)
    → (dispatch c call o s).1.block_number ≡ s.block_number
unfolding dispatch
dispatch-block c (Call.upload_wasm name typ code abi) o s = unfold upload_wasm in ground arith
dispatch-block c (Call.request_script_execution name params) o s =
    unfold request_script_execution in ground arith
dispatch-block c (Call.change_job_state n key) o s = unfold change_job_state in ground arith
dispatch-block c (Call.submit_result_unsiged n key value pk t) o s =
    unfold submit_result_unsiged in ground arith
dispatch-block c Call.get_collators_lts o s = unfold get_collators_lts in ground arith
