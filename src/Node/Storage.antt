-- ===== src/Node/Storage.antt =====
-- The lists and payloads in the shared offchain storage, as the executor reads and writes them.
use my_polkadot_orcale.Prelude.{
  ℕ, Bytes, ◌≡◌, ◌≢◌, refl, Option, some, arith, ok, Outcome, List, [], ◌∷◌, ◌++◌, lookup, insert,
  bytes_eq, bytes_beq_iff, lookup-insert, Option-cases, inl, inr, ap, ◌∙◌, chunks-flatten,
  HaveLength, All, flatten, codes, if◌then◌else◌, ◌==◌,
}
use my_polkadot_orcale.Model.{Public, RequestPayload}
use my_polkadot_orcale.Frame.{Frame}
use my_polkadot_orcale.Node.Executor.{
  JobResult, StorageError, Db, wasmstore_key_list, wasmstore_result_list, write_to_offchain_db,
  key_list_parser, respone_of, list_result, result_listener, assigned_jobs, monitor_turn, run_job,
  process_wasm,
}

-- With nobody writing between its read and its write, a write never fails, and it stores the value.
pub write_to_offchain_db_lem :
    (key new : Bytes) (db : Db) → write_to_offchain_db key new db ≡ (ok tt, insert key new db)
unfolding write_to_offchain_db
write_to_offchain_db_lem key new db = elim (Option-cases (lookup key db)) [
  | inl e ↦ ground arith
  | inr (v, e) ↦ ground (arith, bytes_beq_iff v v)
]

-- The text of a list, which is `init` and behind it any number of keys of 32 bytes, is parsed back
-- into these keys in their order; `init` alone into none.
pub key_list_parser-append :
    (keys : List Bytes)
    → HaveLength 32 keys
    → key_list_parser (codes "init" ++ flatten keys) ≡ ok keys
unfolding key_list_parser
key_list_parser-append keys h = ground (arith, chunks-flatten 31 keys h)

module _ (f : Frame) where
  pub result_listener_state :
      (pk : Public) (r : JobResult) (listed : Bytes) (db : Db)
      → r.job_id ≢ wasmstore_result_list
      → lookup wasmstore_result_list db ≡ some listed
      → result_listener f pk r db
        ≡ insert wasmstore_result_list
            (listed ++ r.job_id)
            (insert r.job_id (f.encode_respone (respone_of f pk r)) db)
  unfolding result_listener
  result_listener_state pk r listed db ne e =
      let stored = f.encode_respone (respone_of f pk r) in
      let db' = insert r.job_id stored db in
      let unlisted : lookup wasmstore_result_list db' ≡ some listed = ground (
        arith,
        lookup-insert r.job_id wasmstore_result_list stored db,
        bytes_beq_iff r.job_id wasmstore_result_list,
      ) in
      ap (λ (d : Db). list_result f r.job_id (lookup wasmstore_result_list d) d)
        (ap (λ (x : Outcome StorageError (Unit {0}) × Db). x.1)
          (write_to_offchain_db_lem r.job_id stored db))
      ∙ ap (λ (o : Option Bytes). list_result f r.job_id o db') unlisted
      ∙ ap (λ (x : Outcome StorageError (Unit {0}) × Db). x.1)
          (write_to_offchain_db_lem wasmstore_result_list (listed ++ r.job_id) db')

  -- A result that has been received is stored under its job's id and listed; nothing else changes.
  pub result_listener_lem :
      (pk : Public) (r : JobResult) (listed : Bytes) (db : Db)
      → r.job_id ≢ wasmstore_result_list
      → lookup wasmstore_result_list db ≡ some listed
      → (key : Bytes)
      → lookup key (result_listener f pk r db) ≡ (
          if wasmstore_result_list == key
          then some (listed ++ r.job_id)
          else if r.job_id == key
          then some (f.encode_respone (respone_of f pk r))
          else lookup key db)
  result_listener_lem pk r listed db ne e key =
      let db' = insert r.job_id (f.encode_respone (respone_of f pk r)) db in
      rw (result_listener_state pk r listed db ne e) (
        ground (
          arith,
          lookup-insert wasmstore_result_list key (listed ++ r.job_id) db',
          lookup-insert r.job_id key (f.encode_respone (respone_of f pk r)) db,
        ))

  -- The monitor's turn on a readable list: the list is reset and the stored requests of its keys
  -- are assigned.
  pub monitor_turn_lem :
      (keys : List Bytes) (seen db : Db)
      → HaveLength 32 keys
      → lookup wasmstore_key_list seen ≡ some (codes "init" ++ flatten keys)
      → monitor_turn f seen db ≡ (
        ok (assigned_jobs f keys (insert wasmstore_key_list (codes "init") db)),
        insert wasmstore_key_list (codes "init") db,
      )
  unfolding monitor_turn
  monitor_turn_lem keys seen db h e = ground (
    arith,
    key_list_parser-append keys h,
    write_to_offchain_db_lem wasmstore_key_list (codes "init") db,
  )

  pub assigned_jobs-nil : (db : Db) → assigned_jobs f [] db ≡ []
  unfolding assigned_jobs
  assigned_jobs-nil db = refl

  pub assigned_jobs-cons :
      (key raw : Bytes) (p : RequestPayload) (keys : List Bytes) (db : Db)
      → lookup key db ≡ some raw
      → f.decode_request raw ≡ some p
      → assigned_jobs f (key ∷ keys) db ≡ p ∷ assigned_jobs f keys db
  unfolding assigned_jobs
  assigned_jobs-cons key raw p keys db e d = ground arith

  -- Storages that agree on the listed keys give the same jobs.
  pub assigned_jobs-agree :
      (keys : List Bytes) (a b : Db)
      → All (λ k. lookup k a ≡ lookup k b) keys
      → assigned_jobs f keys a ≡ assigned_jobs f keys b
  unfolding assigned_jobs
  assigned_jobs-agree [] a b h = refl
  assigned_jobs-agree (k ∷ keys) a b h = ground (arith, assigned_jobs-agree keys a b h.1)

  -- A result is for the job that ran.
  pub run_job-job_id :
      (abi_reader : Bytes → Bytes → Option Bytes) (from_utf8 : Bytes → Option Bytes) (elapsed : ℕ)
      (p : RequestPayload) (r : JobResult)
      → run_job f abi_reader from_utf8 elapsed p ≡ some r
      → r.job_id ≡ p.job_id
  unfolding run_job process_wasm
  run_job-job_id abi_reader from_utf8 elapsed p r h = ground arith
