-- ===== src/Examples/Chain.antt =====
-- Examples for the calls of the wasmstore pallet.
use my_polkadot_orcale.Prelude.{
  err, ℕ, ◌≡◌, ◌≢◌, ◌≤◌, ◌↔◌, refl, Bytes, none, some, [], ◌∷◌, lookup, codes, ok, arith, true,
  nat_eq, bytes_eq, pair_eq,
}
use my_polkadot_orcale.Model.{JobState, pending, finish, Hash}
use my_polkadot_orcale.Frame.{pallet_error, valid, ValidTransaction}
use my_polkadot_orcale.Wasmstore.Types.{
  val_already_exist, State, Call, OcwJob, ScriptDetail, executable,
}
use my_polkadot_orcale.Wasmstore.Calls.{
  upload_wasm, request_script_execution, change_job_state, dispatch,
}
use my_polkadot_orcale.Wasmstore.Unsigned.{validate_unsigned, validate_unsiged_transaction}
use my_polkadot_orcale.Wasmstore.Atomic.{dispatch-atomic}
use my_polkadot_orcale.Wasmstore.Upload.{IsFitting, IsNew, upload_wasm-ok_iff}
use my_polkadot_orcale.Wasmstore.Request.{Requested, job_id_of, request_script_execution-Requested}
use my_polkadot_orcale.Wasmstore.Submit.{Submitted, submit_result-Submitted}
use my_polkadot_orcale.Wasmstore.Jobs.{Keeps, dispatch-Keeps}
use my_polkadot_orcale.Wasmstore.Chain.{Step, Reach}
use my_polkadot_orcale.Wasmstore.Invariant.{IsValid}
use my_polkadot_orcale.Wasmstore.Preserved.{genesis, history-IsValid}
use my_polkadot_orcale.Wasmstore.Lifecycle.{
  MovedOn, change_job_state_lem, two_changes_finish, repeated_request_refused,
}
use my_polkadot_orcale.Wasmstore.Pool.{Names, validate_unsigned-valid}
use my_polkadot_orcale.Examples.Fixture.{wasmstore}

abbrev pub code : Bytes
code = 1 ∷ 2 ∷ []

abbrev pub abi : Bytes
abi = 3 ∷ []

abbrev name : Bytes
name = codes "EXEa"

abbrev script : ScriptDetail
script = record {
  publisher = 7;
  block_number = 1;
  wasm_code = code;
  wasm_abi = abi;
  hash = 11;
  name = name;
  typ = executable;
  ref_count = 0;
}

abbrev pub job : JobState → OcwJob
job st = record { caller = 8; script_name = name; wasm_code = code; wasm_abi = abi; state = st }

-- One script, and its job in some state.
abbrev pub chain : JobState → State
chain st = record {
  script_storage = (wasmstore.debug_encode name, script) ∷ [];
  script_result = [];
  job_queue = (job_id_of wasmstore 8 name script, job st) ∷ [];
  block_number = 4;
  events = [];
  invulnerables = [];
}

abbrev pub id : Hash
id = job_id_of wasmstore 8 name script

abbrev pub upload : Call
upload = Call.upload_wasm (codes "a") executable code abi

abbrev pub request : Call
request = Call.request_script_execution name none

abbrev pub uploaded : State
uploaded = (dispatch wasmstore upload 7 (genesis wasmstore [])).1

pub history : Reach wasmstore (genesis wasmstore []) (dispatch wasmstore request 8 uploaded).1
history =
    Reach.next (Reach.next Reach.here (Step.called (genesis wasmstore []) upload 7))
      (Step.called uploaded request 8)

history-IsValid_example : IsValid wasmstore (dispatch wasmstore request 8 uploaded).1
history-IsValid_example =
    history-IsValid wasmstore [] (dispatch wasmstore request 8 uploaded).1 history

dispatch-Keeps_example :
    Keeps (chain pending) (dispatch wasmstore (Call.change_job_state 4 id) 0 (chain pending)).1
dispatch-Keeps_example = dispatch-Keeps wasmstore (Call.change_job_state 4 id) 0 (chain pending)

refused : (dispatch wasmstore request 0 (chain pending)).0 ≢ ok tt
unfolding dispatch request_script_execution
refused e = cc

dispatch-atomic_example : (dispatch wasmstore request 0 (chain pending)).1 ≡ chain pending
dispatch-atomic_example = dispatch-atomic wasmstore request 0 (chain pending) refused

upload_wasm-ok_iff_example :
    ((upload_wasm wasmstore 7 (codes "a") executable code abi (chain pending)).0 ≡ ok tt) ↔ (
      (wasmstore.ensure_signed 7 ≢ none)
      × IsFitting wasmstore executable (codes "a") code abi
      × IsNew wasmstore executable (codes "a") code (chain pending))
upload_wasm-ok_iff_example =
    upload_wasm-ok_iff wasmstore 7 (codes "a") executable code abi (chain pending)

request_script_execution-Requested_example :
    Requested wasmstore 8 8 name none
      (chain pending)
      (lookup (wasmstore.debug_encode name) (chain pending).script_storage)
request_script_execution-Requested_example =
    request_script_execution-Requested wasmstore 8 8 name none (chain pending) refl
      (omega arith, omega arith)

submit_result-Submitted_example :
    Submitted wasmstore 0 4
      (wasmstore.encode_hash id)
      (7 ∷ [])
      20
      35
      (chain finish)
      id
      (lookup id (chain finish).job_queue)
      (lookup (id, 20) (chain finish).script_result)
submit_result-Submitted_example =
    submit_result-Submitted wasmstore 0 4 (wasmstore.encode_hash id) (7 ∷ []) 20 35 (chain finish)
      id refl refl

change_job_state_lem_example :
    let t = (change_job_state wasmstore 0 4 id (chain pending)).1 in
    ((change_job_state wasmstore 0 4 id (chain pending)).0 ≡ ok tt)
    × (lookup id (chain pending).job_queue ≡ none → lookup id t.job_queue ≡ none)
    × ((job' : OcwJob)
        → lookup id (chain pending).job_queue ≡ some job'
        → (after' : OcwJob) × (lookup id t.job_queue ≡ some after') × MovedOn job' after')
    × ((j : Hash) → id ≢ j → lookup j t.job_queue ≡ lookup j (chain pending).job_queue)
    × (t.script_storage ≡ (chain pending).script_storage)
    × (t.script_result ≡ (chain pending).script_result)
change_job_state_lem_example = change_job_state_lem wasmstore 0 4 id (chain pending) refl

two_changes_finish_example :
    let t =
      (change_job_state wasmstore 0 9 id (change_job_state wasmstore 0 4 id (chain pending)).1).1 in
    (lookup id t.job_queue ≡ some (record (job pending) { state = finish }))
    × (t.script_result ≡ (chain pending).script_result)
two_changes_finish_example =
    two_changes_finish wasmstore 0 0 4 9 id (chain pending) (job pending) refl refl refl refl

-- After two state calls the job is finished, and still blocks its request.
abbrev moved : ℕ → State → State
moved n s = (dispatch wasmstore (Call.change_job_state n id) 0 s).1

repeated_request_refused_example :
    let t = moved 5 (moved 4 (chain pending)) in
    request_script_execution wasmstore 8 name none t ≡ (err (pallet_error val_already_exist), t)
unfolding dispatch change_job_state
repeated_request_refused_example =
    repeated_request_refused wasmstore (chain pending) (moved 5 (moved 4 (chain pending))) 8 8 name
      none script (job pending) refl
      (Reach.next
        (Reach.next Reach.here (Step.called (chain pending) (Call.change_job_state 4 id) 0))
        (Step.called (moved 4 (chain pending)) (Call.change_job_state 5 id) 0))
      refl (omega arith, omega arith) refl

abbrev accepted : ValidTransaction
accepted = record {
  prefix = codes "WasmstoreJobWorker";
  priority = 3;
  provides = [];
  longevity = 5;
  propagate = true;
}

let_in :
    validate_unsigned wasmstore (chain pending) (Call.change_job_state 4 5) ≡ some (valid accepted)
unfolding validate_unsigned validate_unsiged_transaction
let_in = refl

validate_unsigned-valid_example :
    (accepted.provides ≡ [])
    × ((n : ℕ) × (k : Hash) × Names wasmstore (Call.change_job_state 4 5) n k × (n ≤ 4) × (k ≢ 0))
validate_unsigned-valid_example =
    validate_unsigned-valid wasmstore (chain pending) (Call.change_job_state 4 5) accepted let_in
