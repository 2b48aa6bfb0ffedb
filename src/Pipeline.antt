-- ===== src/Pipeline.antt =====
-- A job's way through the system: from the wasmstore offchain worker through the node's executor
-- and back to the chain (pallets/wasmstore-pallet/src/lib.rs, node/src/scripts_exec_manager.rs).
pub mod Twice
pub mod Late
pub mod Reset
pub mod Again
pub mod Delivery
pub mod Scripts
use my_polkadot_orcale.Prelude.{
  ℕ, Bytes, ◌≡◌, ◌≢◌, refl, sym, Option, some, arith, true, ok, List, [], ◌∷◌, ◌++◌, length, lookup,
  insert, bytes_eq, bytes_beq_iff, lookup-insert, lookup-insert_self, ap, subst, ◌∙◌, All,
  HaveLength, flatten, codes,
}
use mathlib.Core.List.{append-nil}
use my_polkadot_orcale.Model.{Public, Hash, RequestPayload, pending}
use my_polkadot_orcale.Wasmstore.Types.{Config, State, Call, OcwJob}
use my_polkadot_orcale.Wasmstore.Worker.{
  Worker, master_key, init_value, request_of, ocw_do_handling_result, submit_results,
  offchain_worker,
}
use my_polkadot_orcale.Wasmstore.Handoff.{FirstActive, ocw_do_handling_result-append}
use my_polkadot_orcale.Wasmstore.Submission.{calls_for, submit_results-Submits}
use my_polkadot_orcale.Wasmstore.Run.{IsReady, asked, offchain_worker-HandedOff}
use my_polkadot_orcale.Node.Executor.{
  JobResult, Db, wasmstore_key_list, wasmstore_result_list, respone_of, result_listener,
  monitor_turn, run_job,
}
use my_polkadot_orcale.Node.Storage.{
  monitor_turn_lem, result_listener_lem, run_job-job_id, assigned_jobs-nil, assigned_jobs-cons,
  assigned_jobs-agree,
}

result_list-ne-key_list : wasmstore_result_list ≢ wasmstore_key_list
result_list-ne-key_list e = absurd (omega (arith, ap (λ (t : Bytes). length t) e))

module _ (c : Config) (w : Worker) (id : Hash) (job : OcwJob) where
  abbrev pub key : Bytes
  key = c.encode_hash id

  -- What the executor is to get: the job's id, its code and its interface.
  abbrev pub payload : RequestPayload
  payload = record {
    job_id = key;
    job_content = job.wasm_code;
    content_abi = job.wasm_abi;
    job_state = job.state;
  }

  key-HaveLength : HaveLength 32 (key ∷ [])
  key-HaveLength = (c.length-encode_hash id, tt)

  pub key-ne-lists : (key ≢ wasmstore_key_list) × (key ≢ wasmstore_result_list)
  key-ne-lists = (
    (λ e. absurd (omega (arith, c.length-encode_hash id, ap (λ (t : Bytes). length t) e))),
    λ e. absurd (omega (arith, c.length-encode_hash id, ap (λ (t : Bytes). length t) e)),
  )

  -- The monitor takes exactly the request that was handed off.
  monitor_takes :
      (db : Db)
      → lookup wasmstore_key_list db ≡ some (init_value ++ key)
      → lookup key db ≡ some (c.encode_request payload)
      → monitor_turn c.frame db db
        ≡ (ok (payload ∷ []), insert wasmstore_key_list (codes "init") db)
  unfolding flatten
  monitor_takes db listed stored =
      let listed' : lookup wasmstore_key_list db ≡ some (codes "init" ++ flatten (key ∷ [])) =
        listed ∙ ap (λ (t : Bytes). some (codes "init" ++ t)) (sym (append-nil key)) in
      let db' = insert wasmstore_key_list (codes "init") db in
      let still : lookup key db' ≡ some (c.encode_request payload) = ground (
        arith,
        lookup-insert wasmstore_key_list key (codes "init") db,
        bytes_beq_iff wasmstore_key_list key,
        key-ne-lists.0,
      ) in
      monitor_turn_lem c.frame (key ∷ []) db db key-HaveLength listed'
      ∙ ap (λ (t : List RequestPayload). (ok t, db'))
          (assigned_jobs-cons c.frame key (c.encode_request payload) payload [] db' still
              (c.decode-encode_request payload)
            ∙ ap (λ (t : List RequestPayload). payload ∷ t) (assigned_jobs-nil c.frame db'))

  id_read_back : ocw_do_handling_result (init_value ++ key) ≡ ok (key ∷ [])
  unfolding flatten
  id_read_back =
      subst (λ t. ocw_do_handling_result (init_value ++ t) ≡ ok (key ∷ [])) (append-nil key)
        (ocw_do_handling_result-append key [] key-HaveLength)

  -- The way of one job, with a script runtime that answers for it.
  module _ (abi_reader : Bytes → Bytes → Option Bytes) (from_utf8 : Bytes → Option Bytes) where
    -- The offchain storage once the executor has taken the job and stored its result.
    abbrev pub answered_db : Public → JobResult → Db
    answered_db pk r =
        let db = (offchain_worker c w).1.local in
        result_listener c.frame pk r (monitor_turn c.frame db db).1

    module _ (elapsed : ℕ) (pk : Public) (r : JobResult) (ready : IsReady c w init_value init_value)
        (first : FirstActive c w id job) (st : job.state ≡ pending)
        (taken : w.accepts (asked w id) ≡ true)
        (ran : run_job c.frame abi_reader from_utf8 elapsed payload ≡ some r) where
      pub same_id : r.job_id ≡ key
      same_id = run_job-job_id c.frame abi_reader from_utf8 elapsed payload r ran

      executor_takes :
          let db = (offchain_worker c w).1.local in
          monitor_turn c.frame db db
          ≡ (ok (payload ∷ []), insert wasmstore_key_list (codes "init") db)
      executor_takes =
          let handed =
            offchain_worker-HandedOff c w init_value init_value id job ready first st taken in
          monitor_takes (offchain_worker c w).1.local handed.listed handed.stored

      -- What is left in the storage: an empty key list, the id on the result list, and the response.
      pub answered_db_lem :
          (lookup wasmstore_key_list (answered_db pk r) ≡ some init_value)
          × (lookup wasmstore_result_list (answered_db pk r) ≡ some (init_value ++ key))
          × (lookup key (answered_db pk r) ≡ some (c.encode_respone (respone_of c.frame pk r)))
      answered_db_lem =
          let handed =
            offchain_worker-HandedOff c w init_value init_value id job ready first st taken in
          let db = (offchain_worker c w).1.local in
          let db₂ = insert wasmstore_key_list (codes "init") db in
          let results : lookup wasmstore_result_list db₂ ≡ some init_value = ground (
            arith,
            lookup-insert wasmstore_key_list wasmstore_result_list (codes "init") db,
            handed.others wasmstore_result_list result_list-ne-key_list
                (λ e. key-ne-lists.1 (sym e)),
            ready.1,
          ) in
          let after =
            result_listener_lem c.frame pk r init_value db₂ (λ e. key-ne-lists.1 (sym same_id ∙ e))
              results in
          rw executor_takes (
            ground (
              arith,
              after wasmstore_key_list,
              bytes_beq_iff r.job_id wasmstore_key_list,
              lookup-insert_self wasmstore_key_list (codes "init") db,
              same_id,
              key-ne-lists.0,
            ),
            after wasmstore_result_list ∙ ap (λ (t : Bytes). some (init_value ++ t)) same_id,
            ground (
              arith,
              after key,
              bytes_beq_iff wasmstore_result_list key,
              bytes_beq_iff r.job_id key,
              same_id,
              key-ne-lists.1,
            ),
          )

    -- A pending job that comes first, with both lists at `init` and an open pool: after a run of the
    -- worker the executor's next turn starts one script, with the id, the code and the interface of
    -- the job. With the result of that script, the result list holds the job's id; and on any later
    -- chain the worker's loop over that list submits exactly this result for the job, under the key
    -- that the listener has.
    pub round_trip :
        (elapsed : ℕ) (t : State) (pk : Public) (r : JobResult)
        → IsReady c w init_value init_value
        → FirstActive c w id job
        → job.state ≡ pending
        → ((call : Call) → w.accepts call ≡ true)
        → run_job c.frame abi_reader from_utf8 elapsed payload ≡ some r
        → let db = (offchain_worker c w).1.local in
          let db' = result_listener c.frame pk r (monitor_turn c.frame db db).1 in
          ((monitor_turn c.frame db db).0 ≡ ok (payload ∷ []))
          × (lookup wasmstore_result_list db' ≡ some (init_value ++ key))
          × (ocw_do_handling_result (init_value ++ key) ≡ ok (key ∷ []))
          × ((submit_results c (key ∷ []) (record w { chain = t; local = db' })).0 ≡ ok tt)
          × ((submit_results c (key ∷ []) (record w { chain = t; local = db' })).1.submitted
              ≡ w.submitted
                ++ Call.submit_result_unsiged t.block_number key r.result pk r.ext_time ∷ [])
    round_trip elapsed t pk r ready first st takes ran =
        let taken = takes (asked w id) in
        let left = answered_db_lem elapsed pk r ready first st taken ran in
        let respone = respone_of c.frame pk r in
        let later = record w { chain = t; local = answered_db pk r } in
        let offered : calls_for c t.block_number (answered_db pk r) (key ∷ [])
            ≡ Call.submit_result_unsiged t.block_number key r.result pk r.ext_time ∷ [] =
          ground (
            arith,
            left.2,
            c.decode-encode_respone respone,
            same_id elapsed pk r ready first st taken ran,
          ) in
        let submits = submit_results-Submits c (key ∷ []) later takes in
        (
          rw (executor_takes elapsed pk r ready first st taken ran) refl,
          left.1,
          id_read_back,
          submits.0,
          submits.1.submitted ∙ ap (λ (calls : List Call). w.submitted ++ calls) offered,
        )
