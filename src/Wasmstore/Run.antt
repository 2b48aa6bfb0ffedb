-- ===== src/Wasmstore/Run.antt =====
-- Whole runs of the wasmstore offchain worker: what is in the offchain storage afterwards.
pub mod Effect
pub mod Total
pub mod Submitted
use Prim.Native.String.{String}
use my_polkadot_orcale.Prelude.{
  Bytes, ◌≡◌, ◌≢◌, refl, Option, some, arith, true, false, ok, err, panic, Outcome, List, [], ◌∷◌,
  ◌++◌, length, lookup, insert, StoreMap, bytes_eq, bytes_beq_iff, lookup-insert,
  lookup-insert_self, Option-cases, inl, inr, ap, ◌∙◌, Exec, after, return,
}
use my_polkadot_orcale.Model.{Hash, pending, finish, RequestPayload, ResponePayload}
use my_polkadot_orcale.Wasmstore.Types.{Config, Call, OcwJob, unsigned_tx, deposit_event}
use my_polkadot_orcale.Wasmstore.Worker.{
  Worker, Command, WasmStoreErr, master_key, master_result_key, compare_and_set, request_of,
  default_request, ocw_do_change_job_state, ocw_do_submit_result, ocw_do_handling_result,
  handle_pending, ocw_do_handling_job, run_command, submit_respone, submit_results, handle_results,
  finish_run, after_reading, offchain_worker,
}
use my_polkadot_orcale.Wasmstore.Handoff.{FirstActive, handling_job-pending, handling_job-finish}

-- The call with which the worker takes a pending job.
abbrev pub asked : Worker → Hash → Call
asked w id = Call.change_job_state w.chain.block_number id

module _ (c : Config) where
  -- A job's id has 32 bytes, so it is none of the two lists' keys.
  pub id-ne-master_key : (id : Hash) → c.encode_hash id ≢ master_key
  id-ne-master_key id e =
      absurd (omega (arith, c.length-encode_hash id, ap (λ (t : Bytes). length t) e))

  pub handle_pending_lem :
      (params : Bytes) (id : Hash) (job : OcwJob) (w : Worker) (r : Outcome String (Unit {0}))
      (w' : Worker)
      → ocw_do_change_job_state id w ≡ (r, w')
      → handle_pending c params id job w ≡ (
        ok (
            Command.request_data
              (params ++ c.encode_hash id)
              (c.encode_request (request_of c id job r))),
        w',
      )
  unfolding handle_pending
  handle_pending_lem params id job w r w' e = rw e

  pub submit_respone-local :
      (found : Option ResponePayload) (w : Worker) → (submit_respone c found w).1.local ≡ w.local
  unfolding ocw_do_submit_result
  submit_respone-local found w = ground arith

  after-local :
      (k : Exec Worker WasmStoreErr (Unit {0})) (r : Outcome WasmStoreErr (Unit {0})) (w : Worker)
      → (k w).1.local ≡ w.local
      → (after r (λ _. k) w).1.local ≡ w.local
  after-local k (ok a) w h = h
  after-local k (err e) w h = refl
  after-local k panic w h = refl

  submit_results-local :
      (keys : List Bytes) (w : Worker) → (submit_results c keys w).1.local ≡ w.local
  unfolding submit_results
  submit_results-local [] w = refl
  submit_results-local (key ∷ keys) w = elim (Option-cases (lookup key w.local)) [
    | inl e ↦ rw (e, return) (submit_results-local keys w)
    | inr (raw, e) ↦
        let found = c.decode_respone raw in
        let w' = (submit_respone c found w).1 in
        rw e (
          after-local (submit_results c keys) (submit_respone c found w).0 w'
            (submit_results-local keys w')
          ∙ submit_respone-local found w)
  ]

  handle_results-local :
      (r : Outcome WasmStoreErr (List Bytes)) (w : Worker)
      → (handle_results c r w).1.local ≡ w.local
  handle_results-local (ok keys) w = submit_results-local keys w
  handle_results-local (err e) w = refl
  handle_results-local panic w = refl

  -- A run is the job handler, its command, and the results.
  module _ (w : Worker) (job_key result_key : Bytes) where
    abbrev pub IsReady : Type 0
    IsReady =
        (lookup master_key w.local ≡ some job_key)
        × (lookup master_result_key w.local ≡ some result_key)

    pub worker_run : IsReady → offchain_worker c w ≡ after_reading c job_key result_key w
    unfolding offchain_worker
    worker_run h = ground arith

    -- The offchain storage after the job handler answered with a request.
    local_after_request :
        (key_list encoded : Bytes) (w' : Worker)
        → ocw_do_handling_job c job_key w ≡ (ok (Command.request_data key_list encoded), w')
        → (after_reading c job_key result_key w).1.local
          ≡ (run_command c job_key (Command.request_data key_list encoded) w').local
    local_after_request key_list encoded w' e = rw e (
        handle_results-local (ocw_do_handling_result result_key)
          (run_command c job_key (Command.request_data key_list encoded) w'))

    -- The key list and the stored payload after a request.
    pub record HandedOff (key_list key payload : Bytes) (db : StoreMap Bytes Bytes) : Type 0 where
      pub listed : lookup master_key db ≡ some key_list
      pub stored : lookup key db ≡ some payload
      pub others : (k : Bytes) → k ≢ master_key → k ≢ key → lookup k db ≡ lookup k w.local

    written-HandedOff :
        (key_list key payload : Bytes)
        → IsReady
        → key ≢ master_key
        → HandedOff key_list key payload
            (insert key payload (compare_and_set master_key job_key key_list w.local))
    written-HandedOff key_list key payload ready ne =
        let db = insert master_key key_list w.local in
        let swapped : compare_and_set master_key job_key key_list w.local ≡ db =
          ground (arith, bytes_beq_iff job_key job_key) in
        rw swapped (record {
          listed = ground (
            arith,
            lookup-insert key master_key payload db,
            bytes_beq_iff key master_key,
            lookup-insert_self master_key key_list w.local,
          );
          stored = lookup-insert_self key payload db;
          others = λ k a b. ground (
            arith,
            lookup-insert key k payload db,
            bytes_beq_iff key k,
            lookup-insert master_key k key_list w.local,
            bytes_beq_iff master_key k,
          );
        })

    request_written :
        (key_list : Bytes) (payload : RequestPayload) (w' : Worker)
        → w'.local ≡ w.local
        → (run_command c job_key
            (Command.request_data key_list (c.encode_request payload))
            w').local
          ≡ insert payload.job_id
              (c.encode_request payload)
              (compare_and_set master_key job_key key_list w.local)
    unfolding run_command
    request_written key_list payload w' e = rw (c.decode-encode_request payload, e)

    -- The two ends of a run over a pending job, by the answer of the pool.
    module _ (id : Hash) (job : OcwJob) (r : Outcome String (Unit {0})) (w' : Worker) where
      pub pending_run :
          FirstActive c w id job
          → job.state ≡ pending
          → ocw_do_change_job_state id w ≡ (r, w')
          → w'.local ≡ w.local
          → (after_reading c job_key result_key w).1.local
            ≡ insert
                (request_of c id job r).job_id
                (c.encode_request (request_of c id job r))
                (compare_and_set master_key job_key (job_key ++ c.encode_hash id) w.local)
      pending_run first st asked same =
          let key_list = job_key ++ c.encode_hash id in
          let payload = request_of c id job r in
          let answered : ocw_do_handling_job c job_key w
              ≡ (ok (Command.request_data key_list (c.encode_request payload)), w') =
            handling_job-pending c job_key w id job first st
            ∙ handle_pending_lem job_key id job w r w' asked in
          local_after_request key_list (c.encode_request payload) w' answered
          ∙ request_written key_list payload w' same

    module _ (id : Hash) (job : OcwJob) (ready : IsReady) (first : FirstActive c w id job) where
      -- With both lists in the offchain storage, a pending job that comes first in the queue is
      -- handed to the executor, if the pool takes its call: its id
      -- stands behind the key list, and its payload under its id. The rest of the offchain storage
      -- stays as it was.
      pub offchain_worker-HandedOff :
          job.state ≡ pending
          → w.accepts (asked w id) ≡ true
          → HandedOff
              (job_key ++ c.encode_hash id)
              (c.encode_hash id)
              (c.encode_request (request_of c id job (ok tt)))
              (offchain_worker c w).1.local
      unfolding ocw_do_change_job_state
      offchain_worker-HandedOff st taken =
          let w' : Worker = record w {
            submitted = w.submitted ++ asked w id ∷ [];
            chain = deposit_event (unsigned_tx w.chain.block_number) w.chain;
          } in
          rw (worker_run ready) (
            rw (pending_run id job (ok tt) w' first st (rw taken) refl) (
              written-HandedOff (job_key ++ c.encode_hash id) (c.encode_hash id)
                (c.encode_request (request_of c id job (ok tt))) ready (id-ne-master_key id)))

      -- Under the same conditions, but with a pool that refuses the call, the id is listed all the same, but what is stored is the
      -- default payload, under the empty key: under the id there is nothing new.
      pub offchain_worker-refused :
          job.state ≡ pending
          → w.accepts (asked w id) ≡ false
          → HandedOff
              (job_key ++ c.encode_hash id)
              []
              (c.encode_request default_request)
              (offchain_worker c w).1.local
      unfolding ocw_do_change_job_state
      offchain_worker-refused st refused = rw (worker_run ready) (
          rw
            (pending_run id job (err "Unable to submit unsigned transaction.") w first st
              (rw refused) refl)
            (written-HandedOff (job_key ++ c.encode_hash id) [] (c.encode_request default_request)
              ready (λ e. cc)))

      -- With both lists in the offchain storage, a finished job that comes first in the queue keeps
      -- every later job waiting: the run hands nothing to the
      -- executor, and it leaves the offchain storage as it was.
      pub offchain_worker-waits : job.state ≡ finish → (offchain_worker c w).1.local ≡ w.local
      unfolding run_command
      offchain_worker-waits st = rw (worker_run ready) (
          rw (handling_job-finish c job_key w id job first st)
            (handle_results-local (ocw_do_handling_result result_key) w))
