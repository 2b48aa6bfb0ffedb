-- ===== src/Node/Executor.antt =====
-- The tasks of the executor: `OffChainMonitor` takes the listed jobs and runs their scripts, and
-- `JobPoolMonitor` writes the results back.
use my_polkadot_orcale.Prelude.{
  ℕ, ◌%◌, Bytes, Bool, true, false, Option, none, some, List, [], ◌∷◌, ◌++◌, length, leb, drop,
  ◌==◌, bytes_eq, codes, chunks, StoreMap, lookup, insert, Outcome, ok, err, panic, if◌then◌else◌,
}
use my_polkadot_orcale.Model.{Public, finish, RequestPayload, ResponePayload}
use my_polkadot_orcale.Frame.{Frame}

pub data StorageError : Type 0 where
  fail_to_write parsing_error no_pending_payload_found wasm_processing_error job_exist :
      StorageError

pub record JobResult : Type 0 where
  pub job_id : Bytes
  pub result : Bytes
  pub ext_time : ℕ

-- The offchain storage under the prefix `storage`, which the worker's local storage uses too.
abbrev pub Db : Type 0
Db = StoreMap Bytes Bytes

abbrev pub wasmstore_key_list : Bytes
wasmstore_key_list = codes "wasmstore_jobs_executor"

abbrev pub wasmstore_result_list : Bytes
wasmstore_result_list = codes "wasmstore_jobs_result"

abbrev pub id_key : Bytes
id_key = codes "identity"

abbrev pub read_from_offchain_db : Bytes → Db → Option Bytes
read_from_offchain_db key db = lookup key db

-- `offchain_db.compare_and_set(prefix, key, Some(&val), new_value)`
abbrev pub compare_and_set : Bytes → Bytes → Bytes → Db → Bool × Db
compare_and_set key old new db = elim (lookup key db) [
  | none ↦ (false, db)
  | some v ↦ (if v == old then (true, insert key new db) else (false, db))
]

-- The write replaces the value that it has just read itself, whatever its caller read before.
unfoldable pub write_to_offchain_db : Bytes → Bytes → Db → Outcome StorageError (Unit {0}) × Db
write_to_offchain_db key new db = elim (lookup key db) [
  | none ↦ (ok tt, insert key new db)
  | some val ↦
      let (done, db') = compare_and_set key val new db in
      (if done then ok tt else err fail_to_write, db')
]

-- The list after its first four bytes, in pieces of 32: `&key_list_raw[4..]` panics on a shorter
-- one, and no list is an error.
unfoldable pub key_list_parser : Bytes → Outcome StorageError (List Bytes)
key_list_parser raw = if leb 4 (length raw) then ok (chunks 32 (drop 4 raw)) else panic

-- `get_processor_keypair`: the first key of the keystore, if there is one.
abbrev pub get_processor_keypair : List Public → Option Public
get_processor_keypair [] = none
get_processor_keypair (k ∷ ks) = some k

module _ (f : Frame) where
  -- The start of `run_executor`: both lists are reset, and the node's key is noted. The key that
  -- answers results is the default one, zero, where the keystore is empty.
  abbrev pub note_key : Option Public → Db → Db × Public
  note_key none db = (db, 0)
  note_key (some k) db = (insert id_key (f.encode_public k) db, k)

  unfoldable pub run_executor : List Public → Db → Db × Public
  run_executor keys db =
      note_key (get_processor_keypair keys)
        (insert wasmstore_result_list (codes "init") (insert wasmstore_key_list (codes "init") db))

  -- One turn of `result_listener`: the response is stored under the job's id, and the id is added
  -- to the result list.
  abbrev pub respone_of : Public → JobResult → ResponePayload
  respone_of processor_key r = record {
    job_id = r.job_id;
    job_result = r.result;
    job_state = finish;
    address = processor_key;
    exe_time = r.ext_time;
  }

  -- `if let Some(value)`: with no result list there is nothing to add the id to.
  abbrev pub list_result : Bytes → Option Bytes → Db → Db
  list_result job_id none db = db
  list_result job_id (some value) db =
      (write_to_offchain_db wasmstore_result_list (value ++ job_id) db).1

  unfoldable pub result_listener : Public → JobResult → Db → Db
  result_listener processor_key r db =
      let db' =
        (write_to_offchain_db r.job_id (f.encode_respone (respone_of processor_key r)) db).1 in
      list_result r.job_id (read_from_offchain_db wasmstore_result_list db') db'

  -- The scripts that a key list starts: for each key its stored request, if it is there and decodes.
  abbrev pub request_at : Option Bytes → Option RequestPayload
  request_at none = none
  request_at (some raw) = f.decode_request raw

  unfoldable pub assigned_jobs : List Bytes → Db → List RequestPayload
  assigned_jobs [] db = []
  assigned_jobs (key ∷ keys) db =
      let rest = assigned_jobs keys db in
      elim (request_at (read_from_offchain_db key db)) [ none ↦ rest | some p ↦ p ∷ rest ]

  -- What the monitor does with the key list that it read: it writes `init` over the list, and then
  -- assigns the jobs.
  abbrev pub take_list :
      Outcome StorageError (List Bytes) → Db → Outcome StorageError (List RequestPayload) × Db
  take_list (ok keys) db =
      let db' = (write_to_offchain_db wasmstore_key_list (codes "init") db).1 in
      (ok (assigned_jobs keys db'), db')
  take_list (err e) db = (ok [], db)
  take_list panic db = (panic, db)

  -- One turn of the monitor's loop on a list that was read from `seen`, with `db` the storage when
  -- the list is written: the worker may have written in between.
  unfoldable pub monitor_turn : Db → Db → Outcome StorageError (List RequestPayload) × Db
  monitor_turn seen db = elim (read_from_offchain_db wasmstore_key_list seen) [
    | none ↦ (ok [], db)
    | some raw ↦ take_list (key_list_parser raw) db
  ]

  -- `process_wasm`: the script runtime is a parameter here, and so are the milliseconds that it
  -- takes, of which `subsec_millis()` keeps those below a second. `none` is a panic: of `expect`
  -- where the runtime fails, and in a task whose ABI is not UTF-8.
  module _ (abi_reader : Bytes → Bytes → Option Bytes) (from_utf8 : Bytes → Option Bytes) where
    unfoldable pub process_wasm : ℕ → Bytes → Bytes → Bytes → Option JobResult
    process_wasm elapsed wasm_code wasm_abi job_id = elim (abi_reader wasm_abi wasm_code) [
      | none ↦ none
      | some res ↦ some (record { job_id = job_id; result = res; ext_time = elapsed % 1000 })
    ]

    -- One spawned task: the request is run, and its result is sent to the listener.
    unfoldable pub run_job : ℕ → RequestPayload → Option JobResult
    run_job elapsed p = elim (from_utf8 p.content_abi) [
      | none ↦ none
      | some abi ↦ process_wasm elapsed p.job_content abi p.job_id
    ]
