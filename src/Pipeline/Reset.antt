-- ===== src/Pipeline/Reset.antt =====
-- A job that the worker meets while the executor resets the key list that the worker has read.
use my_polkadot_orcale.Prelude.{
  Bytes, ◌≡◌, refl, some, arith, true, false, ok, Outcome, List, [], ◌∷◌, ◌++◌, length, lookup,
  insert, bytes_eq, bytes_beq, bytes_beq_iff, lookup-insert, lookup-insert_self, ap, ◌==◌,
  HaveLength, flatten, ◌∙◌,
}
use my_polkadot_orcale.Model.{Hash, RequestPayload, pending}
use my_polkadot_orcale.Wasmstore.Types.{Config, OcwJob, unsigned_tx, deposit_event}
use my_polkadot_orcale.Wasmstore.Worker.{
  Worker, master_key, master_result_key, init_value, compare_and_set, request_of, after_reading,
  ocw_do_change_job_state, ocw_do_handling_result, run_command,
}
use my_polkadot_orcale.Wasmstore.Handoff.{FirstActive, handling_job-pending}
use my_polkadot_orcale.Wasmstore.Run.{asked, handle_pending_lem, pending_run, id-ne-master_key}
use my_polkadot_orcale.Node.Executor.{StorageError, Db, monitor_turn}
use my_polkadot_orcale.Pipeline.{key-ne-lists}
use my_polkadot_orcale.Node.Storage.{monitor_turn_lem}

head_ne : (k rest : Bytes) → length k ≡ 32 → bytes_beq [] (k ++ rest) ≡ false
head_ne [] rest sized = absurd (omega (arith, sized))
head_ne (x ∷ k) rest sized = refl

module _ (c : Config) (w : Worker) (id : Hash) (job : OcwJob) (k : Bytes) (keys : List Bytes) where
  -- The key list that the worker has read.
  abbrev pub read_list : Bytes
  read_list = init_value ++ flatten (k ∷ keys)

  -- The executor takes the list before the worker writes.
  abbrev pub reset : Worker
  reset = record w { local = (monitor_turn c.frame w.local w.local).1 }

  not_the_list : length k ≡ 32 → (init_value == read_list) ≡ false
  unfolding flatten
  not_the_list sized = head_ne k (flatten keys) sized

  -- The worker has read a key list with whole keys on it and an empty result list, and then the
  -- executor takes the key list and resets it. The rest of the worker's run, over a pending job that
  -- comes first in the queue, with a pool that takes its call: the payload is stored, and the call
  -- that moves the job to processing is submitted, but both lists are empty, so the job's id is on
  -- neither.
  pub reset_job_unlisted :
      HaveLength 32 (k ∷ keys)
      → lookup master_key w.local ≡ some read_list
      → lookup master_result_key w.local ≡ some init_value
      → FirstActive c w id job
      → job.state ≡ pending
      → w.accepts (asked w id) ≡ true
      → let after' = (after_reading c read_list init_value reset).1 in
        (lookup master_key after'.local ≡ some init_value)
        × (lookup master_result_key after'.local ≡ some init_value)
        × (lookup (c.encode_hash id) after'.local
            ≡ some (c.encode_request (request_of c id job (ok tt))))
        × (after'.submitted ≡ w.submitted ++ asked w id ∷ [])
  unfolding ocw_do_change_job_state ocw_do_handling_result run_command
  reset_job_unlisted sized listed no_result first st taken =
      let payload = request_of c id job (ok tt) in
      let v = c.encode_request payload in
      let key_list = read_list ++ c.encode_hash id in
      let db = insert master_key init_value w.local in
      let taken_list : (monitor_turn c.frame w.local w.local).1 ≡ db =
        ap (λ (x : Outcome StorageError (List RequestPayload) × Db). x.1)
          (monitor_turn_lem c.frame (k ∷ keys) w.local w.local sized listed) in
      let first' : FirstActive c reset id job = record {
        before = first.before;
        rest = first.rest;
        visited = first.visited;
        passed_over = first.passed_over;
      } in
      let w' : Worker = record reset {
        submitted = w.submitted ++ asked w id ∷ [];
        chain = deposit_event (unsigned_tx w.chain.block_number) w.chain;
      } in
      let asking : ocw_do_change_job_state id reset ≡ (ok tt, w') = rw taken refl in
      let answered =
        handling_job-pending c read_list reset id job first' st
        ∙ handle_pending_lem c read_list id job reset (ok tt) w' asking in
      let kept : compare_and_set master_key read_list key_list db ≡ db =
        ground (arith, lookup-insert_self master_key init_value w.local, not_the_list sized.0) in
      let left : (after_reading c read_list init_value reset).1.local
          ≡ insert (c.encode_hash id) v db =
        pending_run c reset read_list init_value id job (ok tt) w' first' st asking refl
        ∙ ap
            (λ (d : Db).
              insert (c.encode_hash id) v (compare_and_set master_key read_list key_list d))
            taken_list
        ∙ ap (λ (d : Db). insert (c.encode_hash id) v d) kept in
      (
        rw left (
            ground (
              arith,
              lookup-insert (c.encode_hash id) master_key v db,
              bytes_beq_iff (c.encode_hash id) master_key,
              id-ne-master_key c id,
              lookup-insert_self master_key init_value w.local,
            )),
        rw left (
            ground (
              arith,
              lookup-insert (c.encode_hash id) master_result_key v db,
              bytes_beq_iff (c.encode_hash id) master_result_key,
              (key-ne-lists c w id job).1,
              lookup-insert master_key master_result_key init_value w.local,
              no_result,
            )),
        rw left (lookup-insert_self (c.encode_hash id) v db),
        rw answered (rw (c.decode-encode_request payload) refl),
      )
