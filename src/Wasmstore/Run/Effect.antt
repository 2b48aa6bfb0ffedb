-- ===== src/Wasmstore/Run/Effect.antt =====
-- What any run of the wasmstore worker may write to the offchain storage, whatever its outcome.
use my_polkadot_orcale.Prelude.{
  Bytes, ◌≡◌, ◌⊎◌, inl, inr, refl, ◌∙◌, arith, ok, Outcome, List, [], ◌∷◌, ◌++◌, insert, StoreMap,
  IsIn, bytes_eq,
}
use Prim.Native.String.{String}
use my_polkadot_orcale.Model.{Hash, JobState, idling, pending, processing, finish}
use my_polkadot_orcale.Wasmstore.Types.{Config, OcwJob}
use my_polkadot_orcale.Wasmstore.Worker.{
  Worker, Command, master_key, compare_and_set, request_of, ocw_do_change_job_state,
  submit_unsigned, ocw_do_handling_result, handle_pending, handle_jobs, ocw_do_handling_job,
  run_command, after_reading,
}
use my_polkadot_orcale.Wasmstore.Run.{
  handle_pending_lem, handle_results-local, local_after_request, request_written,
}

module _ (c : Config) where
  -- What the job handler may answer.
  abbrev pub Handled : Bytes → StoreMap Hash OcwJob → Worker → Type 0
  Handled params jobs w =
      (handle_jobs c params jobs w ≡ (ok Command.nothing, w))
      ⊎ ((ids : List Bytes) × (handle_jobs c params jobs w ≡ (ok (Command.result_data ids), w)))
      ⊎ ((id : Hash) × (job : OcwJob) × IsIn (id, job) jobs
          × (handle_jobs c params jobs w ≡ handle_pending c params id job w))

  pub handle_jobs-Handled :
      (params : Bytes) (jobs : StoreMap Hash OcwJob) (w : Worker) → Handled params jobs w
  unfolding handle_jobs
  handle_jobs-Handled params [] w = inl refl
  handle_jobs-Handled params ((id, job) ∷ jobs) w =
      go (handle_jobs-Handled params jobs w) job.state refl
    where
      passed :
          handle_jobs c params ((id, job) ∷ jobs) w ≡ handle_jobs c params jobs w
          → Handled params jobs w
          → Handled params ((id, job) ∷ jobs) w
      passed e (inl h) = inl (e ∙ h)
      passed e (inr (inl (ids, h))) = inr (inl (ids, e ∙ h))
      passed e (inr (inr (id', job', at, h))) = inr (inr (id', job', inr at, e ∙ h))

      go :
          Handled params jobs w
          → (st : JobState) → job.state ≡ st
          → Handled params ((id, job) ∷ jobs) w
      go later pending e = inr (inr (id, job, inl refl, ground (arith, e)))
      go later finish e = inr (inl (c.encode_hash id ∷ [], rw e refl))
      go later idling e = passed (rw e refl) later
      go later processing e = passed (rw e refl) later

  asking-local : (id : Hash) (w : Worker) → (ocw_do_change_job_state id w).1.local ≡ w.local
  unfolding ocw_do_change_job_state submit_unsigned
  asking-local id w = ground arith

  -- A run that lists a job behind the key list that it has read, if that list still stands, and
  -- stores a payload for it.
  pub record Lists (job_key : Bytes) (w : Worker) (db : StoreMap Bytes Bytes) : Type 0 where
    pub id : Hash
    pub job : OcwJob
    pub answer : Outcome String (Unit {0})
    pub visited : IsIn (id, job) (c.iter w.chain.job_queue)
    pub now :
        db
        ≡ insert
            (request_of c id job answer).job_id
            (c.encode_request (request_of c id job answer))
            (compare_and_set master_key job_key (job_key ++ c.encode_hash id) w.local)

  -- A run, also one that panics, leaves the offchain storage as it was or lists a job.
  pub after_reading-Lists :
      (job_key result_key : Bytes) (w : Worker)
      → let db = (after_reading c job_key result_key w).1.local in
        (db ≡ w.local) ⊎ Lists job_key w db
  unfolding ocw_do_handling_job
  after_reading-Lists job_key result_key w =
      elim (handle_jobs-Handled job_key (c.iter w.chain.job_queue) w) [
        | inl e ↦ inl (rw e refl)
        | inr (inl (ids, e)) ↦ inl (
            rw e
              (unfold run_command in handle_results-local c (ocw_do_handling_result result_key) w))
        | inr (inr (id, job, at, e)) ↦
            let r = ocw_do_change_job_state id w in
            let answered = e ∙ handle_pending_lem c job_key id job w r.0 r.1 refl in
            inr (record {
              id = id;
              job = job;
              answer = r.0;
              visited = at;
              now =
                  local_after_request c w job_key result_key (job_key ++ c.encode_hash id)
                    (c.encode_request (request_of c id job r.0)) r.1 answered
                  ∙ request_written c w job_key result_key (job_key ++ c.encode_hash id)
                      (request_of c id job r.0) r.1 (asking-local id w);
            })
      ]
