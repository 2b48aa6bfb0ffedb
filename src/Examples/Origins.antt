-- ===== src/Examples/Origins.antt =====
-- An example for the code that runs: a script is uploaded, its execution is requested, the worker
-- hands the job off, and the executor starts it.
use my_polkadot_orcale.Prelude.{
  ◌≡◌, refl, none, some, [], ◌∷◌, ok, true, bytes_eq, nat_eq, All, lookup, arith, chunks,
}
use my_polkadot_orcale.Model.{pending, RequestPayload}
use my_polkadot_orcale.Wasmstore.Types.{State}
use my_polkadot_orcale.Wasmstore.Calls.{dispatch, upload_wasm, request_script_execution}
use my_polkadot_orcale.Wasmstore.Chain.{Step}
use my_polkadot_orcale.Wasmstore.Preserved.{genesis}
use my_polkadot_orcale.Wasmstore.Worker.{
  init_value, master_key, master_result_key, request_of, offchain_worker, ocw_do_handling_job,
  handle_jobs, handle_pending, ocw_do_handling_result, run_command, ocw_do_change_job_state,
}
use my_polkadot_orcale.Node.Executor.{
  run_executor, monitor_turn, key_list_parser, assigned_jobs, write_to_offchain_db,
}
use my_polkadot_orcale.System.{System, Reading, Moves, Reachable, started, worker_ran, list_taken}
use my_polkadot_orcale.System.Origins.{Answered}
use my_polkadot_orcale.System.Origins.Running.{RunsPublished, running-RunsPublished}
use my_polkadot_orcale.Examples.Fixture.{wasmstore, host, distinct-stored}
use my_polkadot_orcale.Examples.Chain.{job, id, upload, request, uploaded}
use my_polkadot_orcale.Examples.System.{reader, utf8}

abbrev first : State
first = genesis wasmstore []

abbrev requested : State
requested = (dispatch wasmstore request 8 uploaded).1

abbrev before_start : System
before_start = record {
  worker = record { chain = first; local = []; submitted = []; accepts = λ call. true };
  readings = [];
  read_in = none;
  running = [];
  finished = [];
  processor = 0;
}

abbrev up : System
up = started wasmstore reader utf8 [] before_start

abbrev with_chain : State → System → System
with_chain t s = record s { worker = record s.worker { chain = t } }

abbrev seen : Reading
seen = record { seen_chain = requested; job_key = init_value; result_key = init_value }

abbrev lists_read : System
lists_read = record (with_chain requested up) { readings = seen ∷ [] }

abbrev handed : System
handed = worker_ran wasmstore reader utf8 seen [] lists_read

abbrev reading : System
reading = record handed { read_in = some handed.worker.local }

abbrev payload : RequestPayload
payload = request_of wasmstore id (job pending) (ok tt)

abbrev taken : System
taken = list_taken wasmstore reader utf8 (payload ∷ []) handed.worker.local reading

takes : (monitor_turn host handed.worker.local handed.worker.local).0 ≡ ok (payload ∷ [])
unfolding offchain_worker monitor_turn run_executor ocw_do_handling_job handle_jobs handle_pending
    ocw_do_handling_result run_command ocw_do_change_job_state key_list_parser assigned_jobs chunks
    write_to_offchain_db dispatch upload_wasm request_script_execution
takes = refl

lists_there :
    (lookup master_key up.worker.local ≡ some init_value)
    × (lookup master_result_key up.worker.local ≡ some init_value)
unfolding run_executor
lists_there = (refl, refl)

course : Reachable wasmstore reader utf8 before_start taken
course =
    Reachable.move
      (Reachable.move
        (Reachable.move
          (Reachable.move
            (Reachable.move
              (Reachable.move (Reachable.start [])
                (Moves.chain_moves up uploaded (Step.called first upload 7)))
              (Moves.chain_moves (with_chain uploaded up) requested
                (Step.called uploaded request 8)))
            (Moves.worker_reads (with_chain requested up) init_value init_value lists_there.0
              lists_there.1))
          (Moves.worker_writes lists_read [] [] seen refl))
        (Moves.monitor_reads handed refl))
      (Moves.monitor_writes reading handed.worker.local (payload ∷ []) refl takes)

running-RunsPublished_example :
    All (RunsPublished wasmstore first requested) (payload ∷ [])
    × All (Answered wasmstore reader utf8 requested) []
running-RunsPublished_example =
    running-RunsPublished wasmstore reader utf8 [] {s = before_start} {t = taken} distinct-stored
      refl (λ k raw e there p d. absurd (ground (arith, there))) course
