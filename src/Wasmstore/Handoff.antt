-- ===== src/Wasmstore/Handoff.antt =====
-- What one run of the wasmstore offchain worker does: the job that it serves, the request that it
-- leaves for the executor, and the results that it submits.
use my_polkadot_orcale.Prelude.{
  Bytes, ◌≡◌, ◌≢◌, refl, arith, ok, List, [], ◌∷◌, ◌++◌, StoreMap, bytes_eq, chunks-flatten,
  HaveLength, flatten, All,
}
use my_polkadot_orcale.Model.{Hash, pending, finish}
use my_polkadot_orcale.Wasmstore.Types.{Config, OcwJob}
use my_polkadot_orcale.Wasmstore.Worker.{
  Worker, Command, init_value, ocw_do_handling_result, handle_pending, handle_jobs,
  ocw_do_handling_job,
}

-- A job that the worker passes over.
abbrev pub IsPassedOver : Hash × OcwJob → Type 0
IsPassedOver (_, job) = (job.state ≢ pending) × (job.state ≢ finish)

-- The keys written one behind the other after `init` are read back, and `init` alone is no result.
pub ocw_do_handling_result-append :
    (key : Bytes) (keys : List Bytes)
    → HaveLength 32 (key ∷ keys)
    → ocw_do_handling_result (init_value ++ flatten (key ∷ keys)) ≡ ok (key ∷ keys)
unfolding ocw_do_handling_result flatten
ocw_do_handling_result-append [] keys h = absurd (omega (arith, h.0))
ocw_do_handling_result-append (x ∷ key) keys h =
    ground (arith, chunks-flatten 31 ((x ∷ key) ∷ keys) h)

module _ (c : Config) where
  handle_jobs-skips :
      (params : Bytes) (before rest : StoreMap Hash OcwJob) (w : Worker)
      → All IsPassedOver before
      → handle_jobs c params (before ++ rest) w ≡ handle_jobs c params rest w
  unfolding handle_jobs
  handle_jobs-skips params [] rest w h = refl
  handle_jobs-skips params ((id, job) ∷ before) rest w h =
      ground (arith, handle_jobs-skips params before rest w h.1)

  -- The jobs as the worker meets them: all before this one are idle or being processed.
  pub record FirstActive (w : Worker) (id : Hash) (job : OcwJob) : Type 0 where
    pub before : StoreMap Hash OcwJob
    pub rest : StoreMap Hash OcwJob
    pub visited : c.iter w.chain.job_queue ≡ before ++ (id, job) ∷ rest
    pub passed_over : All IsPassedOver before

  -- With a pending job first, the worker asks for its move to processing and answers with the key
  -- list and the payload of that job.
  pub handling_job-pending :
      (params : Bytes) (w : Worker) (id : Hash) (job : OcwJob)
      → FirstActive w id job
      → job.state ≡ pending
      → ocw_do_handling_job c params w ≡ handle_pending c params id job w
  unfolding ocw_do_handling_job
  handling_job-pending params w id job f e = rw f.visited (
      rw (handle_jobs-skips params f.before ((id, job) ∷ f.rest) w f.passed_over)
        (unfold handle_jobs in ground arith))

  pub handling_job-finish :
      (params : Bytes) (w : Worker) (id : Hash) (job : OcwJob)
      → FirstActive w id job
      → job.state ≡ finish
      → ocw_do_handling_job c params w ≡ (ok (Command.result_data (c.encode_hash id ∷ [])), w)
  unfolding ocw_do_handling_job
  handling_job-finish params w id job f e = rw f.visited (
      rw (handle_jobs-skips params f.before ((id, job) ∷ f.rest) w f.passed_over)
        (unfold handle_jobs in ground arith))
