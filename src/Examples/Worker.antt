-- ===== src/Examples/Worker.antt =====
-- Examples for the worker of the wasmstore pallet and for the executor.
use my_polkadot_orcale.Prelude.{
  ◌≡◌, refl, Bytes, Option, some, [], ◌∷◌, ◌++◌, lookup, ok, true, false, bytes_eq, flatten,
}
use my_polkadot_orcale.Model.{JobState, pending, finish, ResponePayload}
use my_polkadot_orcale.Wasmstore.Types.{Call}
use my_polkadot_orcale.Wasmstore.Worker.{
  Worker, master_key, master_result_key, init_value, default_request, request_of,
  ocw_do_handling_result, submit_results, submit_results, offchain_worker,
}
use my_polkadot_orcale.Wasmstore.Handoff.{FirstActive}
use my_polkadot_orcale.Wasmstore.Submission.{Submits, calls_for, submit_results-Submits}
use my_polkadot_orcale.Wasmstore.Run.{
  IsReady, HandedOff, offchain_worker-HandedOff, offchain_worker-refused, offchain_worker-waits,
}
use my_polkadot_orcale.Node.Executor.{
  JobResult, wasmstore_key_list, wasmstore_result_list, result_listener, monitor_turn, run_job,
  process_wasm,
}
use my_polkadot_orcale.Pipeline.{key, payload, round_trip}
use my_polkadot_orcale.Pipeline.Late.{late_job_lost}
use my_polkadot_orcale.Examples.Fixture.{wasmstore, host}
use my_polkadot_orcale.Examples.Chain.{job, chain, id}

-- Both lists are at `init`.
abbrev pub worker : JobState → Worker
worker st = record {
  chain = chain st;
  local = (master_key, init_value) ∷ (master_result_key, init_value) ∷ [];
  submitted = [];
  accepts = λ call. true;
}

abbrev refusing : Worker
refusing = record (worker pending) { accepts = λ call. false }

pub ready : (st : JobState) → IsReady wasmstore (worker st) init_value init_value
ready st = (refl, refl)

pub first : (st : JobState) → FirstActive wasmstore (worker st) id (job st)
first st = record { before = []; rest = []; visited = refl; passed_over = tt }

offchain_worker-HandedOff_example :
    HandedOff wasmstore
      (worker pending)
      init_value
      init_value
      (init_value ++ wasmstore.encode_hash id)
      (wasmstore.encode_hash id)
      (wasmstore.encode_request (request_of wasmstore id (job pending) (ok tt)))
      (offchain_worker wasmstore (worker pending)).1.local
offchain_worker-HandedOff_example =
    offchain_worker-HandedOff wasmstore (worker pending) init_value init_value id (job pending)
      (ready pending) (first pending) refl refl

offchain_worker-refused_example :
    HandedOff wasmstore refusing init_value init_value
      (init_value ++ wasmstore.encode_hash id)
      []
      (wasmstore.encode_request default_request)
      (offchain_worker wasmstore refusing).1.local
offchain_worker-refused_example =
    offchain_worker-refused wasmstore refusing init_value init_value id (job pending) (refl, refl)
      (record { before = []; rest = []; visited = refl; passed_over = tt }) refl refl

offchain_worker-waits_example :
    (offchain_worker wasmstore (worker finish)).1.local ≡ (worker finish).local
offchain_worker-waits_example =
    offchain_worker-waits wasmstore (worker finish) init_value init_value id (job finish)
      (ready finish) (first finish) refl

abbrev respone : ResponePayload
respone = record {
  job_id = 5 ∷ [];
  job_result = 6 ∷ [];
  job_state = finish;
  address = 20;
  exe_time = 9;
}

-- A worker with one stored response.
abbrev answered : Worker
answered = record (worker finish) { local = (5 ∷ [], wasmstore.encode_respone respone) ∷ [] }

submit_results-Submits_example :
    ((submit_results wasmstore ((5 ∷ []) ∷ (4 ∷ []) ∷ []) answered).0 ≡ ok tt)
    × Submits wasmstore
        (calls_for wasmstore 4 answered.local ((5 ∷ []) ∷ (4 ∷ []) ∷ []))
        answered
        (submit_results wasmstore ((5 ∷ []) ∷ (4 ∷ []) ∷ []) answered).1
submit_results-Submits_example =
    submit_results-Submits wasmstore ((5 ∷ []) ∷ (4 ∷ []) ∷ []) answered (λ call. refl)

abbrev pub reader : Bytes → Bytes → Option Bytes
reader abi code = some (code ++ abi)

abbrev pub utf8 : Bytes → Option Bytes
utf8 text = some text

abbrev pub result : JobResult
result = record { job_id = wasmstore.encode_hash id; result = 1 ∷ 2 ∷ 3 ∷ []; ext_time = 35 }

pub runs :
    run_job host reader utf8 35 (payload wasmstore (worker pending) id (job pending)) ≡ some result
unfolding run_job process_wasm
runs = refl

round_trip_example :
    let w = worker pending in
    let db = (offchain_worker wasmstore w).1.local in
    let db' = result_listener host 20 result (monitor_turn host db db).1 in
    ((monitor_turn host db db).0 ≡ ok (payload wasmstore w id (job pending) ∷ []))
    × (lookup wasmstore_result_list db' ≡ some (init_value ++ key wasmstore w id (job pending)))
    × (ocw_do_handling_result (init_value ++ key wasmstore w id (job pending))
        ≡ ok (key wasmstore w id (job pending) ∷ []))
    × ((submit_results wasmstore
          (key wasmstore w id (job pending) ∷ [])
          (record w { chain = chain finish; local = db' })).0
        ≡ ok tt)
    × ((submit_results wasmstore
          (key wasmstore w id (job pending) ∷ [])
          (record w { chain = chain finish; local = db' })).1.submitted
        ≡ Call.submit_result_unsiged 4 (key wasmstore w id (job pending)) (1 ∷ 2 ∷ 3 ∷ []) 20 35
          ∷ [])
round_trip_example =
    round_trip wasmstore (worker pending) id (job pending) reader utf8 35 (chain finish) 20 result
      (ready pending) (first pending) refl (λ call. refl) runs

late_job_lost_example :
    let w = worker pending in
    let db = (offchain_worker wasmstore w).1.local in
    (lookup wasmstore_key_list db
      ≡ some ((init_value ++ flatten []) ++ key wasmstore w id (job pending)))
    × (lookup wasmstore_key_list (monitor_turn host w.local db).1 ≡ some init_value)
    × ((monitor_turn host w.local db).0 ≡ (monitor_turn host w.local w.local).0)
unfolding flatten
late_job_lost_example =
    late_job_lost wasmstore (worker pending) id (job pending) [] init_value tt tt (ready pending)
      (first pending) refl refl
