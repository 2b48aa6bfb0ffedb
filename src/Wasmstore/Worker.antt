-- ===== src/Wasmstore/Worker.antt =====
-- The offchain worker of the wasmstore pallet: it hands pending jobs to the executor through the
-- node's offchain storage, and the executor's results to the chain as unsigned transactions.
use Prim.Native.String.{String}
use my_polkadot_orcale.Prelude.{
  ℕ, Bytes, Bool, Option, none, some, List, [], ◌∷◌, ◌++◌, length, leb, drop, ◌==◌, bytes_eq, codes,
  chunks, StoreMap, lookup, insert, Outcome, ok, err, panic, Exec, return, panicked, gets, modify,
  expect, ◌>>=◌, ◌>>◌, if◌then◌else◌,
}
use my_polkadot_orcale.Model.{Hash, Public, idling, pending, finish, RequestPayload, ResponePayload}
use my_polkadot_orcale.Wasmstore.Types.{Config, State, Call, OcwJob, unsigned_tx, deposit_event}

-- One run of the worker: the chain as the run sees it (what it writes there is discarded), the
-- offchain storage, the unsigned calls that it has submitted, and whether the pool takes a call.
pub record Worker : Type 0 where
  pub chain : State
  pub local : StoreMap Bytes Bytes
  pub submitted : List Call
  pub accepts : Call → Bool

pub data Command : Type 0 where
  nothing : Command
  request_data : (key_list encoded : Bytes) → Command
  result_data : (result_list : List Bytes) → Command

pub data WasmStoreErr : Type 0 where
  value_already_exist is_still_running unintialize other : WasmStoreErr

abbrev pub master_key : Bytes
master_key = codes "wasmstore_jobs_executor"

abbrev pub master_result_key : Bytes
master_result_key = codes "wasmstore_jobs_result"

abbrev pub init_value : Bytes
init_value = codes "init"

-- `local_storage_compare_and_set`: the value is written only where the old one still stands.
abbrev pub compare_and_set : Bytes → Bytes → Bytes → StoreMap Bytes Bytes → StoreMap Bytes Bytes
compare_and_set key old new db = elim (lookup key db) [
  | none ↦ db
  | some v ↦ (if v == old then insert key new db else db)
]

-- `RequestPayload::default()`
abbrev pub default_request : RequestPayload
default_request = record { job_id = []; job_content = []; content_abi = []; job_state = idling }

-- `submit_unsigned_transaction(..).map_err(..)?`, then the event
unfoldable pub submit_unsigned : Call → Exec Worker String (Unit {0})
unfolding deposit_event
submit_unsigned call w =
    if w.accepts call
    then (
      ok tt,
      record w {
        submitted = w.submitted ++ call ∷ [];
        chain = deposit_event (unsigned_tx w.chain.block_number) w.chain;
      },
    )
    else (err "Unable to submit unsigned transaction.", w)

unfoldable pub ocw_do_change_job_state : Hash → Exec Worker String (Unit {0})
unfolding submit_unsigned
ocw_do_change_job_state key = do
  block_number ← gets (λ w. w.chain.block_number)
  submit_unsigned (Call.change_job_state block_number key)

unfoldable pub ocw_do_submit_result : Bytes → Bytes → Public → ℕ → Exec Worker String (Unit {0})
unfolding submit_unsigned
ocw_do_submit_result key value processor_pub ext_time = do
  block_number ← gets (λ w. w.chain.block_number)
  submit_unsigned (Call.submit_result_unsiged block_number key value processor_pub ext_time)

-- The keys of the finished jobs: the text after the first four bytes, in pieces of a hash's size.
-- `&params[4..]` panics on a shorter text.
unfoldable pub ocw_do_handling_result : Bytes → Outcome WasmStoreErr (List Bytes)
ocw_do_handling_result params =
    if params == init_value
    then err is_still_running
    else if leb 4 (length params)
    then ok (chunks 32 (drop 4 params))
    else panic

module _ (c : Config) where
  -- The payload that goes with a pending job, or the default one if its state call was refused.
  abbrev pub request_of : Hash → OcwJob → Outcome String (Unit {0}) → RequestPayload
  request_of job_id job (ok _) = record {
    job_id = c.encode_hash job_id;
    job_content = job.wasm_code;
    content_abi = job.wasm_abi;
    job_state = job.state;
  }
  request_of job_id job _ = default_request

  unfoldable pub handle_pending : Bytes → Hash → OcwJob → Exec Worker WasmStoreErr Command
  handle_pending params job_id job w =
      let (r, w') = ocw_do_change_job_state job_id w in
      (
        ok (
            Command.request_data (params ++ c.encode_hash job_id)
              (c.encode_request (request_of job_id job r))),
        w',
      )

  -- The loop over `JobQueue::iter()` returns at the first pending or finished job.
  unfoldable pub handle_jobs : Bytes → StoreMap Hash OcwJob → Exec Worker WasmStoreErr Command
  handle_jobs params [] = return Command.nothing
  handle_jobs params ((job_id, job) ∷ rest) = elim job.state [
    | pending ↦ handle_pending params job_id job
    | finish ↦ return (Command.result_data (c.encode_hash job_id ∷ []))
    | _ ↦ handle_jobs params rest
  ]

  unfoldable pub ocw_do_handling_job : Bytes → Exec Worker WasmStoreErr Command
  ocw_do_handling_job params w = handle_jobs params (c.iter w.chain.job_queue) w

  -- The command of the job handler: a request is written for the executor.
  abbrev pub store_request : Bytes → Bytes → Bytes → Option RequestPayload → Worker → Worker
  store_request job_key key_list encoded none w = w
  store_request job_key key_list encoded (some payload) w = record w {
    local = insert payload.job_id encoded (compare_and_set master_key job_key key_list w.local);
  }

  unfoldable pub run_command : Bytes → Command → Worker → Worker
  run_command job_key Command.nothing w = w
  run_command job_key (Command.request_data key_list encoded) w =
      store_request job_key key_list encoded (c.decode_request encoded) w
  run_command job_key (Command.result_data keys) w = w

  -- A response that is there and decodes is submitted; a refusal by the pool is a panic.
  abbrev pub submit_respone : Option ResponePayload → Exec Worker WasmStoreErr (Unit {0})
  submit_respone none = return tt
  submit_respone (some res) = do
    address ← expect (c.decode_public (c.encode_public res.address))
    λ w.
        let (r, w') = ocw_do_submit_result res.job_id res.job_result address res.exe_time w in
        (elim r [ ok _ ↦ ok tt | err _ ↦ panic | panic ↦ panic ], w')

  unfoldable pub submit_results : List Bytes → Exec Worker WasmStoreErr (Unit {0})
  unfolding ocw_do_submit_result
  submit_results [] = return tt
  submit_results (key ∷ keys) = do
    raw ← gets (λ w. lookup key w.local)
    elim raw [ none ↦ return tt | some val ↦ submit_respone (c.decode_respone val) ]
    submit_results keys

  abbrev pub handle_results :
      Outcome WasmStoreErr (List Bytes) → Exec Worker WasmStoreErr (Unit {0})
  handle_results (ok keys) = submit_results keys
  handle_results (err e) = return tt
  handle_results panic = panicked

  -- After the job handler: with no job to report the run returns early.
  abbrev pub finish_run :
      Bytes → Bytes → Outcome WasmStoreErr Command → Exec Worker WasmStoreErr (Unit {0})
  finish_run job_key result_key (ok Command.nothing) = return tt
  finish_run job_key result_key (ok command) = do
    modify (run_command job_key command)
    handle_results (ocw_do_handling_result result_key)
  finish_run job_key result_key (err e) = handle_results (ocw_do_handling_result result_key)
  finish_run job_key result_key panic = panicked

  -- The run once both lists have been read.
  abbrev pub after_reading : Bytes → Bytes → Exec Worker WasmStoreErr (Unit {0})
  after_reading job_key result_key w =
      let (r, w') = ocw_do_handling_job job_key w in finish_run job_key result_key r w'

  unfoldable pub offchain_worker : Exec Worker WasmStoreErr (Unit {0})
  offchain_worker = do
    job_key ← λ w. expect (lookup master_key w.local) w
    result_key ← λ w. expect (lookup master_result_key w.local) w
    after_reading job_key result_key
