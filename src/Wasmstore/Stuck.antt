-- ===== src/Wasmstore/Stuck.antt =====
-- Jobs that are being processed: the worker passes over them, and results for them are refused.
use my_polkadot_orcale.Prelude.{
  ℕ, Bytes, ◌≡◌, refl, some, arith, ok, err, [], ◌∷◌, lookup, StoreMap, All, nat_eq, bytes_eq, true,
}
use my_polkadot_orcale.Model.{Hash, Public, Origin, processing}
use my_polkadot_orcale.Frame.{pallet_error}
use my_polkadot_orcale.Wasmstore.Types.{Config, OcwJob, invalid_operation}
use my_polkadot_orcale.Wasmstore.Calls.{submit_result_unsiged}
use my_polkadot_orcale.Wasmstore.Worker.{
  Worker, Command, handle_jobs, ocw_do_handling_job, offchain_worker,
}
use my_polkadot_orcale.Wasmstore.Handoff.{IsPassedOver}
use my_polkadot_orcale.Wasmstore.Run.{IsReady}
use my_polkadot_orcale.Wasmstore.Submit.{submit_result-Submitted}

module _ (c : Config) where
  handle_jobs-none :
      (params : Bytes) (jobs : StoreMap Hash OcwJob) (w : Worker)
      → All IsPassedOver jobs
      → handle_jobs c params jobs w ≡ (ok Command.nothing, w)
  unfolding handle_jobs
  handle_jobs-none params [] w h = refl
  handle_jobs-none params ((id, job) ∷ jobs) w h =
      ground (arith, handle_jobs-none params jobs w h.1)

  -- With both lists in the offchain storage and no job that is pending or finished, a run of the
  -- worker does nothing at all: it asks for no state and submits no result, also where the executor
  -- has left results.
  pub offchain_worker-idle :
      (w : Worker) (job_key result_key : Bytes)
      → IsReady c w job_key result_key
      → All IsPassedOver (c.iter w.chain.job_queue)
      → offchain_worker c w ≡ (ok tt, w)
  unfolding offchain_worker ocw_do_handling_job
  offchain_worker-idle w job_key result_key ready idle =
      ground (arith, handle_jobs-none job_key (c.iter w.chain.job_queue) w idle)

  -- Once every job of the queue is being processed, which is where the worker's own state call puts
  -- a pending job, the job is stuck: a run of the worker changes nothing and submits nothing, and an
  -- unsigned result for the job is refused, by whomever and whatever it is.
  pub processing_stuck :
      (w : Worker) (job_key result_key : Bytes) (id : Hash) (job : OcwJob) (o : Origin) (n : ℕ)
      (raw value : Bytes) (pk : Public) (t : ℕ)
      → IsReady c w job_key result_key
      → All IsPassedOver (c.iter w.chain.job_queue)
      → lookup id w.chain.job_queue ≡ some job
      → job.state ≡ processing
      → c.ensure_none o ≡ true
      → c.decode_hash raw ≡ some id
      → (offchain_worker c w ≡ (ok tt, w))
        × (submit_result_unsiged c o n raw value pk t w.chain
            ≡ (err (pallet_error invalid_operation), w.chain))
  processing_stuck w job_key result_key id job o n raw value pk t ready idle there st unsigned
        decoded =
      let refused = submit_result-Submitted c o n raw value pk t w.chain id unsigned decoded in
      (
        offchain_worker-idle w job_key result_key ready idle,
        (rw there at refused).0 (λ e. ground arith),
      )
