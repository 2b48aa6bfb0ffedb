-- ===== src/Wasmstore/Calls.antt =====
-- The dispatchable functions of the wasmstore pallet (`#[pallet::call]`).
use my_polkadot_orcale.Prelude.{
  ℕ, Bytes, Bool, true, false, not, ◌||◌, Option, none, some, ◌++◌, length, leb, ◌==◌, nat_eq,
  bytes_eq, pair_eq, codes, lookup, insert, return, throw, gets, modify, ensure, ok_or, expect,
  ◌>>=◌, ◌>>◌,
}
use my_polkadot_orcale.Model.{Hash, Public, Origin, JobState, pending, processing, finish}
use my_polkadot_orcale.Frame.{bad_origin, pallet_error}
use my_polkadot_orcale.Wasmstore.Types.{
  ScriptType, executable, source, ScriptDetail, OcwJob, SignedScriptResult, script_upload,
  request_execution, test_event, size_too_big, val_already_exist, no_val_exist, invalid_operation,
  Config, State, Call, Dispatch, deposit_event,
}

-- `format!("EXE{}", name)` and `format!("SRC{}", name)`
abbrev pub full_name : ScriptType → Bytes → Bytes
full_name executable name = codes "EXE" ++ name
full_name source name = codes "SRC" ++ name

-- The `ensure!` on the script that the key already holds.
abbrev pub ensure_new : Option ScriptDetail → Bytes → Bytes → Dispatch (Unit {0})
ensure_new none name code = return tt
ensure_new (some detail) name code =
    ensure (not (name == detail.name) || not (code == detail.wasm_code))
      (pallet_error val_already_exist)

-- `match existing_job.state` of `change_job_state`
abbrev pub next_state : JobState → JobState
next_state pending = processing
next_state processing = finish
next_state s = s

abbrev pub is_finish : JobState → Bool
is_finish finish = true
is_finish _ = false

-- The job that a request puts into the queue.
abbrev pub requested_job : ℕ → Bytes → ScriptDetail → OcwJob
requested_job who name script = record {
  caller = who;
  script_name = name;
  wasm_code = script.wasm_code;
  wasm_abi = script.wasm_abi;
  state = pending;
}

-- `match JobQueue::get(..)`
abbrev pub enqueue : Hash → OcwJob → Option OcwJob → Dispatch (Unit {0})
enqueue job_id job none = modify (λ s. record s { job_queue = insert job_id job s.job_queue })
enqueue job_id job (some _) = throw (pallet_error val_already_exist)

-- `JobQueue::mutate(key, ..)`: a key with no job is left alone.
abbrev pub advance_job : Hash → Option OcwJob → State → State
advance_job key none s = s
advance_job key (some job) s = record s {
  job_queue = insert key (record job { state = next_state job.state }) s.job_queue;
}

module _ (c : Config) where
  -- The storage key of a script: its name, printed with quotes and SCALE encoded, within bounds.
  pub script_key : Bytes → Option Bytes
  script_key name = c.try_from c.max_script_key_len (c.debug_encode name)

  unfoldable pub upload_wasm : Origin → Bytes → ScriptType → Bytes → Bytes → Dispatch (Unit {0})
  unfolding deposit_event script_key
  upload_wasm origin name typ wasm_code script_abi = do
    who ← ok_or (c.ensure_signed origin) bad_origin
    let name_clone = full_name typ name
    let code_hash = c.hash wasm_code
    ensure (leb (length wasm_code) c.max_script_size) (pallet_error size_too_big)
    bounded_code ← ok_or (c.try_from c.max_script_size wasm_code) (pallet_error size_too_big)
    bounded_name ← ok_or (c.try_from c.max_string_size name_clone) (pallet_error size_too_big)
    bounded_abi ← ok_or (c.try_from c.max_script_size script_abi) (pallet_error size_too_big)
    key ← ok_or (script_key name_clone) (pallet_error size_too_big)
    val ← gets (λ s. lookup key s.script_storage)
    ensure_new val bounded_name bounded_code
    now ← gets (λ s. s.block_number)
    modify (λ s. record s {
      script_storage =
          insert key
            (record {
              publisher = who;
              block_number = now;
              wasm_code = bounded_code;
              wasm_abi = bounded_abi;
              hash = code_hash;
              name = bounded_name;
              typ = typ;
              ref_count = 0;
            })
            s.script_storage;
    })
    modify (deposit_event (script_upload who now (length bounded_code) name_clone code_hash))

  unfoldable pub request_script_execution : Origin → Bytes → Option Bytes → Dispatch (Unit {0})
  unfolding deposit_event script_key
  request_script_execution origin script_name params = do
    who ← ok_or (c.ensure_signed origin) bad_origin
    key ← ok_or (script_key script_name) (pallet_error size_too_big)
    val ← gets (λ s. lookup key s.script_storage)
    script ← ok_or val (pallet_error no_val_exist)
    name ← ok_or (c.try_from c.max_string_size script_name) (pallet_error size_too_big)
    let job = requested_job who name script
    let job_id = c.hash (c.encode_job job)
    old ← gets (λ s. lookup job_id s.job_queue)
    enqueue job_id job old
    now ← gets (λ s. s.block_number)
    modify (deposit_event (request_execution job_id who now script_name))

  unfoldable pub change_job_state : Origin → ℕ → Hash → Dispatch (Unit {0})
  change_job_state origin block_number key = do
    ensure (c.ensure_none origin) bad_origin
    modify (λ s. advance_job key (lookup key s.job_queue) s)

  -- A first result that is too long is an error; a later one makes `expect("Oversize")` panic.
  abbrev pub store_result :
      Hash → Public → Bytes → ℕ → Option SignedScriptResult → Dispatch (Unit {0})
  store_result key pk value ext_time none = do
    data' ← ok_or (c.try_from c.max_result_size value) (pallet_error size_too_big)
    modify (λ s. record s {
      script_result =
          insert (key, pk) (record { result_data = data'; ext_time = ext_time }) s.script_result;
    })
  store_result key pk value ext_time (some old) = do
    data' ← expect (c.try_from c.max_result_size value)
    modify (λ s. record s {
      script_result =
          insert (key, pk) (record { result_data = data'; ext_time = ext_time }) s.script_result;
    })

  -- `if let Some(val) = JobQueue::get(..)`: a result for a job that is not there is dropped.
  abbrev pub submit_for : Hash → Public → Bytes → ℕ → Option OcwJob → Dispatch (Unit {0})
  submit_for key pk value ext_time none = return tt
  submit_for key pk value ext_time (some job) = do
    ensure (is_finish job.state) (pallet_error invalid_operation)
    old ← gets (λ s. lookup (key, pk) s.script_result)
    store_result key pk value ext_time old

  unfoldable pub submit_result_unsiged :
      Origin → ℕ → Bytes → Bytes → Public → ℕ → Dispatch (Unit {0})
  submit_result_unsiged origin block_number key value processor_pub ext_time = do
    ensure (c.ensure_none origin) bad_origin
    onchain_key ← expect (c.decode_hash key)
    job ← gets (λ s. lookup onchain_key s.job_queue)
    submit_for onchain_key processor_pub value ext_time job

  unfoldable pub get_collators_lts : Origin → Dispatch (Unit {0})
  unfolding deposit_event
  get_collators_lts origin = do
    who ← ok_or (c.ensure_signed origin) bad_origin
    collators ← gets (λ s. s.invulnerables)
    modify (deposit_event (test_event collators))

  -- A call of a transaction is dispatched to its function.
  unfoldable pub dispatch : Call → Origin → Dispatch (Unit {0})
  dispatch (Call.upload_wasm name typ code abi) origin = upload_wasm origin name typ code abi
  dispatch (Call.request_script_execution name params) origin =
      request_script_execution origin name params
  dispatch (Call.change_job_state block_number key) origin =
      change_job_state origin block_number key
  dispatch (Call.submit_result_unsiged block_number key value pk ext_time) origin =
      submit_result_unsiged origin block_number key value pk ext_time
  dispatch Call.get_collators_lts origin = get_collators_lts origin
