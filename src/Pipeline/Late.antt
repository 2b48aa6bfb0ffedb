-- ===== src/Pipeline/Late.antt =====
-- A job that the worker lists while the executor is between its reading and its writing of the list.
use my_polkadot_orcale.Prelude.{
  Bytes, ◌≡◌, ◌≢◌, some, arith, true, ok, List, [], ◌∷◌, ◌++◌, length, lookup, insert, bytes_eq,
  lookup-insert, lookup-insert_self, ap, All, HaveLength, flatten, codes,
}
use my_polkadot_orcale.Model.{Hash, RequestPayload, pending}
use my_polkadot_orcale.Wasmstore.Types.{Config, OcwJob}
use my_polkadot_orcale.Wasmstore.Worker.{Worker, master_key, init_value, offchain_worker}
use my_polkadot_orcale.Wasmstore.Handoff.{FirstActive}
use my_polkadot_orcale.Wasmstore.Run.{IsReady, asked, offchain_worker-HandedOff}
use my_polkadot_orcale.Node.Executor.{Db, wasmstore_key_list, monitor_turn}
use my_polkadot_orcale.Node.Storage.{monitor_turn_lem, assigned_jobs-agree}
use my_polkadot_orcale.Pipeline.{key}

module _ (c : Config) (w : Worker) (id : Hash) (job : OcwJob) where
  -- The listed keys read the same after the hand-off and a reset of the list.
  unchanged :
      (db : Db) (keys : List Bytes)
      → HaveLength 32 keys
      → All (λ k. k ≢ key c w id job) keys
      → ((k : Bytes) → k ≢ master_key → k ≢ key c w id job → lookup k db ≡ lookup k w.local)
      → All
          (λ k.
            lookup k (insert wasmstore_key_list (codes "init") db)
            ≡ lookup k (insert wasmstore_key_list (codes "init") w.local))
          keys
  unchanged db [] sized fresh same = tt
  unchanged db (k ∷ keys) sized fresh same =
      let ne : k ≢ master_key =
        λ e. absurd (omega (arith, sized.0, ap (λ (t : Bytes). length t) e)) in
      (
        ground (
          arith,
          same k ne fresh.0,
          lookup-insert wasmstore_key_list k (codes "init") db,
          lookup-insert wasmstore_key_list k (codes "init") w.local,
        ),
        unchanged db keys sized.1 fresh.1 same,
      )

  -- The executor reads a key list that does not hold the job's id; then the worker hands the job
  -- off, pending and first in the queue with a pool that takes its call, before the executor writes
  -- the list. The list is reset with the new id on it, and this turn starts the jobs that it would
  -- have started without the hand-off.
  pub late_job_lost :
      (keys : List Bytes) (raw_results : Bytes)
      → HaveLength 32 keys
      → All (λ k. k ≢ key c w id job) keys
      → IsReady c w (init_value ++ flatten keys) raw_results
      → FirstActive c w id job
      → job.state ≡ pending
      → w.accepts (asked w id) ≡ true
      → let db = (offchain_worker c w).1.local in
        (lookup wasmstore_key_list db ≡ some ((init_value ++ flatten keys) ++ key c w id job))
        × (lookup wasmstore_key_list (monitor_turn c.frame w.local db).1 ≡ some init_value)
        × ((monitor_turn c.frame w.local db).0 ≡ (monitor_turn c.frame w.local w.local).0)
  late_job_lost keys raw_results sized fresh ready first st taken =
      let old = init_value ++ flatten keys in
      let handed = offchain_worker-HandedOff c w old raw_results id job ready first st taken in
      let db = (offchain_worker c w).1.local in
      let reset = λ (d : Db). insert wasmstore_key_list (codes "init") d in
      let late = monitor_turn_lem c.frame keys w.local db sized ready.0 in
      let alone = monitor_turn_lem c.frame keys w.local w.local sized ready.0 in
      (
        handed.listed,
        rw late (lookup-insert_self wasmstore_key_list (codes "init") db),
        rw (late, alone)
            (ap (λ (t : List RequestPayload). ok t)
              (assigned_jobs-agree c.frame keys (reset db) (reset w.local)
                (unchanged db keys sized fresh handed.others))),
      )
