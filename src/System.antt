-- ===== src/System.antt =====
-- The chain, the wasmstore offchain worker and the tasks of the executor at work side by side on
-- one offchain storage (pallets/wasmstore-pallet/src/lib.rs, node/src/scripts_exec_manager.rs).
-- A step is one call or block of the chain, one half of a run of the worker, or what one task of the
-- executor does between two waits; steps come in any order.
pub mod Sound
pub mod Safe
pub mod Origins
use my_polkadot_orcale.Prelude.{
  ℕ, Bytes, Bool, ◌≡◌, Option, none, some, ok, List, [], ◌∷◌, ◌++◌, lookup, bytes_eq,
}
use my_polkadot_orcale.Model.{Public, RequestPayload}
use my_polkadot_orcale.Wasmstore.Types.{Config, State, Call}
use my_polkadot_orcale.Wasmstore.Chain.{Step}
use my_polkadot_orcale.Wasmstore.Worker.{Worker, master_key, master_result_key, after_reading}
use my_polkadot_orcale.Node.Executor.{
  JobResult, Db, run_executor, monitor_turn, result_listener, run_job,
}

-- What a run of the worker has read: the chain of its block, and both lists.
pub record Reading : Type 0 where
  pub seen_chain : State
  pub job_key : Bytes
  pub result_key : Bytes

-- The chain and the offchain storage are the worker's. There may be several runs of it that have
-- read the lists and not yet written, since each block starts one. The executor has the storage in
-- which its monitor has read the key list, between that read and the write of the list, the scripts
-- that are running, and the results that wait for the listener.
pub record System : Type 0 where
  pub worker : Worker
  pub readings : List Reading
  pub read_in : Option Db
  pub running : List RequestPayload
  pub finished : List JobResult
  -- the key that `run_executor` has handed to the listener
  pub processor : Public

module _ (c : Config) (abi_reader : Bytes → Bytes → Option Bytes)
    (from_utf8 : Bytes → Option Bytes) where
  abbrev with_local : Db → Worker → Worker
  with_local db w = record w { local = db }

  -- `run_executor` on a storage of earlier runs of the node, with nothing read or running yet.
  abbrev pub started : List Public → System → System
  started keys s =
      let (db, processor_key) = run_executor c.frame keys s.worker.local in
      record {
        worker = with_local db s.worker;
        readings = [];
        read_in = none;
        running = [];
        finished = [];
        processor = processor_key;
      }

  -- The worker as a run has it: on the chain that it has read, and the storage of now.
  abbrev pub run_on : Reading → Worker → Worker
  run_on r w = record w { chain = r.seen_chain }

  abbrev pub worker_ran : Reading → List Reading → System → System
  worker_ran r others s =
      let w = (after_reading c r.job_key r.result_key (run_on r s.worker)).1 in
      record s {
        worker = record s.worker { local = w.local; submitted = w.submitted };
        readings = others;
      }

  abbrev pub list_taken : List RequestPayload → Db → System → System
  list_taken jobs seen s = record s {
    worker = with_local (monitor_turn c.frame seen s.worker.local).1 s.worker;
    read_in = none;
    running = s.running ++ jobs;
  }

  abbrev pub result_stored : JobResult → List JobResult → System → System
  result_stored r rest s = record s {
    worker = with_local (result_listener c.frame s.processor r s.worker.local) s.worker;
    finished = rest;
  }

  pub data Moves : System → System → Type 0 where
    -- a call of the pallet, from any origin and with any outcome, or a new block
    chain_moves :
        (s : System) (t : State)
        → Step c s.worker.chain t
        → Moves s (record s { worker = record s.worker { chain = t } })
    pool_moves :
        (s : System) (accepts : Call → Bool)
        → Moves s (record s { worker = record s.worker { accepts = accepts } })
    worker_reads :
        (s : System) (job_key result_key : Bytes)
        → lookup master_key s.worker.local ≡ some job_key
        → lookup master_result_key s.worker.local ≡ some result_key
        → Moves s (record s {
          readings =
              record { seen_chain = s.worker.chain; job_key = job_key; result_key = result_key }
              ∷ s.readings;
        })
    -- the rest of a run, whatever its outcome
    worker_writes :
        (s : System) (before after' : List Reading) (r : Reading)
        → s.readings ≡ before ++ r ∷ after'
        → Moves s (worker_ran r (before ++ after') s)
    monitor_reads :
        (s : System) → s.read_in ≡ none → Moves s (record s { read_in = some s.worker.local })
    monitor_writes :
        (s : System) (seen : Db) (jobs : List RequestPayload)
        → s.read_in ≡ some seen
        → (monitor_turn c.frame seen s.worker.local).0 ≡ ok jobs
        → Moves s (list_taken jobs seen s)
    -- a script ends with a result, or its task panics
    job_ends :
        (s : System) (before after : List RequestPayload) (p : RequestPayload) (elapsed : ℕ)
        (r : JobResult)
        → s.running ≡ before ++ p ∷ after
        → run_job c.frame abi_reader from_utf8 elapsed p ≡ some r
        → Moves s (record s { running = before ++ after; finished = s.finished ++ r ∷ [] })
    job_panics :
        (s : System) (before after : List RequestPayload) (p : RequestPayload) (elapsed : ℕ)
        → s.running ≡ before ++ p ∷ after
        → run_job c.frame abi_reader from_utf8 elapsed p ≡ none
        → Moves s (record s { running = before ++ after })
    listener_stores :
        (s : System) (r : JobResult) (rest : List JobResult)
        → s.finished ≡ r ∷ rest
        → Moves s (result_stored r rest s)
    node_restarts : (s : System) (keys : List Public) → Moves s (started keys s)

  -- What the node can come to after its start, by steps in any order.
  pub data Reachable (s : System) : System → Type 0 where
    start : (keys : List Public) → Reachable s (started keys s)
    move : {t u : System} → Reachable s t → Moves t u → Reachable s u
