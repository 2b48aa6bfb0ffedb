-- ===== src/Pipeline/Twice.antt =====
-- A job that the worker meets again, on a chain without its state call.
use my_polkadot_orcale.Prelude.{
  Bytes, ◌≡◌, refl, sym, some, arith, true, ok, List, [], ◌∷◌, ◌++◌, length, lookup, insert,
  bytes_eq, bytes_beq_iff, lookup-insert, ap, ◌∙◌, flatten, codes,
}
use mathlib.Core.List.{append-nil}
use my_polkadot_orcale.Model.{Hash, pending}
use my_polkadot_orcale.Wasmstore.Types.{Config, State, OcwJob}
use my_polkadot_orcale.Wasmstore.Worker.{Worker, init_value, offchain_worker}
use my_polkadot_orcale.Wasmstore.Handoff.{FirstActive}
use my_polkadot_orcale.Wasmstore.Run.{IsReady, asked, offchain_worker-HandedOff}
use my_polkadot_orcale.Node.Executor.{wasmstore_key_list, wasmstore_result_list, monitor_turn}
use my_polkadot_orcale.Node.Storage.{monitor_turn_lem, assigned_jobs-nil, assigned_jobs-cons}
use my_polkadot_orcale.Pipeline.{key, payload, key-ne-lists}

module _ (c : Config) (w : Worker) (id : Hash) (job : OcwJob) where
  -- The next run: on a later chain, and the offchain storage that this one left.
  abbrev pub later : State → Worker
  later t = record w { chain = t; local = (offchain_worker c w).1.local }

  -- Two runs of the worker over a job, the second on any chain on which it is still pending and first
  -- in the queue, each with a pool that takes the call that it sends for the block of its chain: with
  -- both lists at `init` before, the job is listed twice, and the next turn of the executor starts
  -- its script twice.
  pub started_twice :
      (t : State)
      → IsReady c w init_value init_value
      → FirstActive c w id job
      → job.state ≡ pending
      → w.accepts (asked w id) ≡ true
      → FirstActive c (later t) id job
      → w.accepts (asked (later t) id) ≡ true
      → let db = (offchain_worker c (later t)).1.local in
        (lookup wasmstore_key_list db ≡ some (init_value ++ (key c w id job ++ key c w id job)))
        × ((monitor_turn c.frame db db).0 ≡ ok (payload c w id job ∷ payload c w id job ∷ []))
  unfolding flatten
  started_twice t ready first st taken first' taken' =
      let k = key c w id job in
      let p = payload c w id job in
      let one = offchain_worker-HandedOff c w init_value init_value id job ready first st taken in
      let results : lookup wasmstore_result_list (later t).local ≡ some init_value =
        one.others wasmstore_result_list
          (λ e. absurd (omega (arith, ap (λ (t : Bytes). length t) e)))
          (λ e. (key-ne-lists c w id job).1 (sym e))
        ∙ ready.1 in
      let two =
        offchain_worker-HandedOff c (later t) (init_value ++ k) init_value id job
          (one.listed, results) first' st taken' in
      let db = (offchain_worker c (later t)).1.local in
      let db' = insert wasmstore_key_list (codes "init") db in
      let twice : k ++ (k ++ []) ≡ k ++ k = ap (λ (t : Bytes). k ++ t) (append-nil k) in
      let stored : lookup k db' ≡ some (c.encode_request p) = ground (
        arith,
        lookup-insert wasmstore_key_list k (codes "init") db,
        bytes_beq_iff wasmstore_key_list k,
        (key-ne-lists c w id job).0,
        two.stored,
      ) in
      let listed : lookup wasmstore_key_list db ≡ some (init_value ++ (k ++ k)) = two.listed in
      let turn =
        monitor_turn_lem c.frame (k ∷ k ∷ []) db db
          (c.length-encode_hash id, (c.length-encode_hash id, tt))
          (listed ∙ ap (λ (t : Bytes). some (init_value ++ t)) (sym twice)) in
      let cons = λ (keys : List Bytes).
        assigned_jobs-cons c.frame k (c.encode_request p) p keys db' stored
          (c.decode-encode_request p) in
      (listed, rw (turn, cons (k ∷ []), cons [], assigned_jobs-nil c.frame db') refl)
