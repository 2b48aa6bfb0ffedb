-- ===== src/Wasmstore/Atomic.antt =====
-- A call of the wasmstore pallet that fails or panics has written nothing.
use my_polkadot_orcale.Prelude.{ℕ, Bytes, ◌≡◌, ◌≢◌, Option, arith, ok}
use my_polkadot_orcale.Model.{Origin, Public}
use my_polkadot_orcale.Wasmstore.Types.{Config, State, Call, ScriptType}
use my_polkadot_orcale.Wasmstore.Calls.{
  upload_wasm, request_script_execution, change_job_state, submit_result_unsiged, get_collators_lts,
  dispatch,
}

module _ (c : Config) where
  pub upload_wasm-atomic :
      (o : Origin) (name : Bytes) (typ : ScriptType) (code abi : Bytes) (s : State)
      → (upload_wasm c o name typ code abi s).0 ≢ ok tt
      → (upload_wasm c o name typ code abi s).1 ≡ s
  unfolding upload_wasm
  upload_wasm-atomic o name typ code abi s h = ground arith

  request-atomic :
      (o : Origin) (name : Bytes) (params : Option Bytes) (s : State)
      → (request_script_execution c o name params s).0 ≢ ok tt
      → (request_script_execution c o name params s).1 ≡ s
  unfolding request_script_execution
  request-atomic o name params s h = ground arith

  submit-atomic :
      (o : Origin) (n : ℕ) (key value : Bytes) (pk : Public) (t : ℕ) (s : State)
      → (submit_result_unsiged c o n key value pk t s).0 ≢ ok tt
      → (submit_result_unsiged c o n key value pk t s).1 ≡ s
  unfolding submit_result_unsiged
  submit-atomic o n key value pk t s h = ground arith

  -- Whatever the call and the origin: if the outcome is not `ok`, the storage is as it was.
  pub dispatch-atomic :
      (call : Call) (o : Origin) (s : State)
      → (dispatch c call o s).0 ≢ ok tt
      → (dispatch c call o s).1 ≡ s
  unfolding dispatch
  dispatch-atomic (Call.upload_wasm name typ code abi) o s h =
      upload_wasm-atomic o name typ code abi s h
  dispatch-atomic (Call.request_script_execution name params) o s h =
      request-atomic o name params s h
  dispatch-atomic (Call.change_job_state n key) o s h = unfold change_job_state in ground arith
  dispatch-atomic (Call.submit_result_unsiged n key value pk t) o s h =
      submit-atomic o n key value pk t s h
  dispatch-atomic Call.get_collators_lts o s h = unfold get_collators_lts in ground arith
