-- ===== src/Pipeline/Delivery.antt =====
-- A job's whole way, until its result is in the storage of the chain.
use my_polkadot_orcale.Prelude.{
  ℕ, Bytes, ◌≡◌, ◌≤◌, refl, Option, some, true, ok, List, [], ◌∷◌, ◌++◌, length, lookup, bytes_eq,
  nat_eq, pair_eq, lookup-insert_self,
}
use my_polkadot_orcale.Model.{Public, Hash, Origin, pending, finish}
use my_polkadot_orcale.Wasmstore.Types.{Config, State, Call, OcwJob, SignedScriptResult}
use my_polkadot_orcale.Wasmstore.Calls.{change_job_state, submit_result_unsiged, dispatch}
use my_polkadot_orcale.Wasmstore.Worker.{
  Worker, init_value, ocw_do_handling_result, run_command, submit_results, offchain_worker,
}
use my_polkadot_orcale.Wasmstore.Handoff.{FirstActive, handling_job-finish}
use my_polkadot_orcale.Wasmstore.Submit.{submit_result-Submitted}
use my_polkadot_orcale.Wasmstore.Lifecycle.{history_finishes}
use my_polkadot_orcale.Wasmstore.Chain.{Reach}
use my_polkadot_orcale.Wasmstore.Run.{IsReady, worker_run}
use my_polkadot_orcale.Node.Executor.{JobResult, run_job}
use my_polkadot_orcale.Pipeline.{key, payload, answered_db, answered_db_lem, round_trip}

module _ (c : Config) where
  -- With a finished job first and results listed, a run of the worker submits them and no more.
  pub finish_run-submits :
      (w : Worker) (job_key result_key : Bytes) (keys : List Bytes) (id : Hash) (job : OcwJob)
      → IsReady c w job_key result_key
      → FirstActive c w id job
      → job.state ≡ finish
      → ocw_do_handling_result result_key ≡ ok keys
      → offchain_worker c w ≡ submit_results c keys w
  unfolding run_command
  finish_run-submits w job_key result_key keys id job ready first st read =
      rw (worker_run c w job_key result_key ready)
        (rw (handling_job-finish c job_key w id job first st) (rw read refl))

  stored_result :
      (o : Origin) (n : ℕ) (raw value : Bytes) (pk : Public) (t : ℕ) (s : State) (id : Hash)
      (job : OcwJob)
      → c.ensure_none o ≡ true
      → c.decode_hash raw ≡ some id
      → lookup id s.job_queue ≡ some job
      → job.state ≡ finish
      → length value ≤ c.max_result_size
      → lookup (id, pk) (submit_result_unsiged c o n raw value pk t s).1.script_result
        ≡ some (record { result_data = value; ext_time = t })
  stored_result o n raw value pk t s id job unsigned decoded there st fits =
      let r : SignedScriptResult = record { result_data = value; ext_time = t } in
      let accepted = submit_result-Submitted c o n raw value pk t s id unsigned decoded in
      let by = rw there at accepted in
      rw (by.1 st fits) (lookup-insert_self (id, pk) r s.script_result)

module _ (c : Config) (w : Worker) (id : Hash) (job : OcwJob)
    (abi_reader : Bytes → Bytes → Option Bytes) (from_utf8 : Bytes → Option Bytes) where
  -- The worker on a later chain, with the storage that the executor has left.
  abbrev pub returns : State → Public → JobResult → Worker
  returns t pk r = record w { chain = t; local = answered_db c w id job abi_reader from_utf8 pk r }

  -- A queued pending job that comes first, with both lists at `init` and an open pool, whose script
  -- has run; and a later chain, by any history of calls and blocks in which two unsigned state calls
  -- are for the job. A run of the worker on that chain, if the job still comes first, submits exactly
  -- the result, and that call, from an unsigned origin and with a result within the bound, puts the
  -- result into the storage of the chain.
  pub delivered :
      (o o' o'' : Origin) (elapsed n n' : ℕ) (pk : Public) (r : JobResult) (s₁ s₂ t : State)
      (done : OcwJob)
      → IsReady c w init_value init_value
      → FirstActive c w id job
      → lookup id w.chain.job_queue ≡ some job
      → job.state ≡ pending
      → ((call : Call) → w.accepts call ≡ true)
      → run_job c.frame abi_reader from_utf8 elapsed (payload c w id job) ≡ some r
      → (c.ensure_none o ≡ true) × (c.ensure_none o' ≡ true) × (c.ensure_none o'' ≡ true)
      → Reach c w.chain s₁
      → Reach c (change_job_state c o n id s₁).1 s₂
      → Reach c (change_job_state c o' n' id s₂).1 t
      → length r.result ≤ c.max_result_size
      → lookup id t.job_queue ≡ some done
      → FirstActive c (returns t pk r) id done
      → let w' = returns t pk r in
        let call =
          Call.submit_result_unsiged t.block_number (key c w id job) r.result pk r.ext_time in
        ((offchain_worker c w').0 ≡ ok tt)
        × ((offchain_worker c w').1.submitted ≡ w.submitted ++ call ∷ [])
        × (lookup (id, pk) (dispatch c call o'' t).1.script_result
            ≡ some (record { result_data = r.result; ext_time = r.ext_time }))
  unfolding dispatch
  delivered o o' o'' elapsed n n' pk r s₁ s₂ t done ready first queued st takes ran unsigned r₁ r₂
        r₃ fits found again =
      let w' = returns t pk r in
      let k = key c w id job in
      let finished =
        history_finishes c w.chain s₁ s₂ t o o' n n' id job done unsigned.0 unsigned.1 queued st r₁
          r₂ r₃ found in
      let left =
        answered_db_lem c w id job abi_reader from_utf8 elapsed pk r ready first st (takes _) ran in
      let trip =
        round_trip c w id job abi_reader from_utf8 elapsed t pk r ready first st takes ran in
      let run =
        finish_run-submits c w' init_value (init_value ++ k) (k ∷ []) id done (left.0, left.1) again
          finished trip.2 in
      (
        rw run trip.3,
        rw run trip.4,
        stored_result c o'' t.block_number k r.result pk r.ext_time t id done unsigned.2
            (c.decode-encode_hash id) found finished fits,
      )
