-- ===== src/Examples/System.antt =====
-- Examples for the chain, the worker and the executor side by side.
use my_polkadot_orcale.Prelude.{
  ◌++◌, ◌≡◌, ◌≢◌, refl, Bytes, Option, none, some, [], ◌∷◌, ok, panic, true, bytes_eq, All, lookup,
  arith, chunks,
}
use my_polkadot_orcale.Model.{pending, RequestPayload}
use my_polkadot_orcale.Wasmstore.Types.{Call}
use my_polkadot_orcale.Wasmstore.Worker.{
  init_value, master_key, master_result_key, request_of, offchain_worker, ocw_do_handling_job,
  handle_jobs, handle_pending, ocw_do_handling_result, run_command, ocw_do_change_job_state,
}
use my_polkadot_orcale.Node.Executor.{
  JobResult, Db, result_listener, run_executor, monitor_turn, run_job, process_wasm,
  key_list_parser, assigned_jobs, write_to_offchain_db,
}
use my_polkadot_orcale.System.{
  System, Reading, Moves, Reachable, started, worker_ran, list_taken, result_stored,
}
use my_polkadot_orcale.System.Sound.{HasJobId}
use my_polkadot_orcale.System.Origins.{Starts}
use my_polkadot_orcale.System.Origins.Results.{HasOrigin, submitted-HasOrigin}
use my_polkadot_orcale.System.Safe.{IdSized, EndsWell, never_panics}
use my_polkadot_orcale.Examples.Fixture.{wasmstore, host, distinct-stored}
use my_polkadot_orcale.Examples.Chain.{job, chain, id}

abbrev pub reader : Bytes → Bytes → Option Bytes
reader abi code = some (5 ∷ 6 ∷ [])

abbrev pub utf8 : Bytes → Option Bytes
utf8 text = some text

abbrev before_start : System
before_start = record {
  worker = record { chain = chain pending; local = []; submitted = []; accepts = λ call. true };
  readings = [];
  read_in = none;
  running = [];
  finished = [];
  processor = 0;
}

abbrev request : RequestPayload
request = request_of wasmstore id (job pending) (ok tt)

abbrev answer : JobResult
answer = record { job_id = wasmstore.encode_hash id; result = 5 ∷ 6 ∷ []; ext_time = 3 }

-- The worker hands the job off, the monitor takes it, its script ends, and its result is stored.
abbrev up : System
up = started wasmstore reader utf8 (20 ∷ []) before_start

-- What the worker reads: the chain, and both lists as the node has started them.
abbrev seen : Reading
seen = record { seen_chain = chain pending; job_key = init_value; result_key = init_value }

abbrev lists_read : System
lists_read = record up { readings = seen ∷ [] }

abbrev handed : System
handed = worker_ran wasmstore reader utf8 seen [] lists_read

abbrev reading : System
reading = record handed { read_in = some handed.worker.local }

abbrev taken : System
taken = list_taken wasmstore reader utf8 (request ∷ []) handed.worker.local reading

abbrev ended : System
ended = record taken { running = []; finished = answer ∷ [] }

abbrev stored : System
stored = result_stored wasmstore reader utf8 answer [] ended

takes : (monitor_turn host handed.worker.local handed.worker.local).0 ≡ ok (request ∷ [])
unfolding offchain_worker monitor_turn run_executor ocw_do_handling_job handle_jobs handle_pending
    ocw_do_handling_result run_command ocw_do_change_job_state key_list_parser assigned_jobs chunks
    write_to_offchain_db
takes = refl

runs : run_job host reader utf8 3 request ≡ some answer
unfolding run_job process_wasm
runs = refl

lists_there :
    (lookup master_key up.worker.local ≡ some init_value)
    × (lookup master_result_key up.worker.local ≡ some init_value)
unfolding run_executor
lists_there = (refl, refl)

history : Reachable wasmstore reader utf8 before_start stored
history =
    Reachable.move
      (Reachable.move
        (Reachable.move
          (Reachable.move
            (Reachable.move
              (Reachable.move (Reachable.start (20 ∷ []))
                (Moves.worker_reads up init_value init_value (lists_there.0) (lists_there.1)))
              (Moves.worker_writes lists_read [] [] seen refl))
            (Moves.monitor_reads handed refl))
          (Moves.monitor_writes reading handed.worker.local (request ∷ []) refl takes))
        (Moves.job_ends taken [] [] request 3 answer refl runs))
      (Moves.listener_stores ended answer [] refl)

never_panics_example :
    ((db : Db) → stored.read_in ≡ some db → (monitor_turn host db stored.worker.local).0 ≢ panic)
    × (((call : Call) → stored.worker.accepts call ≡ true)
        → All (EndsWell wasmstore reader utf8 stored) stored.readings
          × ((offchain_worker wasmstore stored.worker).0 ≡ ok tt))
    × All HasJobId stored.running
    × All IdSized stored.finished
never_panics_example =
    never_panics wasmstore reader utf8 (λ k raw e there p d. absurd (ground (arith, there))) history

-- A second run of the worker reads the lists and submits the result.
abbrev answered : Reading
answered = record {
  seen_chain = chain pending;
  job_key = init_value;
  result_key = init_value ++ wasmstore.encode_hash id;
}

abbrev result_read : System
result_read = record stored { readings = answered ∷ [] }

abbrev submitted : System
submitted = worker_ran wasmstore reader utf8 answered [] result_read

lists_left :
    (lookup master_key stored.worker.local ≡ some init_value)
    × (lookup master_result_key stored.worker.local ≡ some (init_value ++ wasmstore.encode_hash id))
unfolding offchain_worker monitor_turn run_executor ocw_do_handling_job handle_jobs handle_pending
    ocw_do_handling_result run_command ocw_do_change_job_state key_list_parser assigned_jobs chunks
    write_to_offchain_db result_listener
lists_left = (refl, refl)

submitted_course : Reachable wasmstore reader utf8 before_start submitted
submitted_course =
    Reachable.move
      (Reachable.move history (
        Moves.worker_reads stored init_value (init_value ++ wasmstore.encode_hash id) lists_left.0
          lists_left.1))
      (Moves.worker_writes result_read [] [] answered refl)

submitted_course-Starts : Starts wasmstore reader utf8 (λ k. k ≡ 20) submitted_course
unfolding submitted_course history
submitted_course-Starts = ((((((((refl, tt), tt), tt), tt), tt), tt), tt), tt)

submitted-HasOrigin_example :
    All (HasOrigin wasmstore reader utf8 (λ k. k ≡ 20) (chain pending)) submitted.worker.submitted
submitted-HasOrigin_example =
    submitted-HasOrigin wasmstore reader utf8 (λ k. k ≡ 20) distinct-stored {s = before_start}
      (λ k raw e there. absurd (ground (arith, there))) {t = submitted} submitted_course
      submitted_course-Starts refl
