-- ===== src/Examples/Delivery.antt =====
-- Examples for a job's way through the system and for the board behind the storage.
use my_polkadot_orcale.Prelude.{
  suc, ◌≡◌, refl, some, [], ◌∷◌, ◌++◌, lookup, ok, err, bytes_eq, nat_eq, pair_eq, arith, codes,
}
use my_polkadot_orcale.Model.{pending, processing, finish}
use my_polkadot_orcale.Frame.{pallet_error}
use my_polkadot_orcale.Wasmstore.Types.{State, Call, invalid_operation}
use my_polkadot_orcale.Wasmstore.Calls.{change_job_state, submit_result_unsiged, dispatch}
use my_polkadot_orcale.Wasmstore.Worker.{Worker, init_value, offchain_worker}
use my_polkadot_orcale.Wasmstore.Handoff.{FirstActive}
use my_polkadot_orcale.Wasmstore.Chain.{Step, Reach}
use my_polkadot_orcale.Wasmstore.Stuck.{processing_stuck}
use my_polkadot_orcale.Wasmstore.Preserved.{genesis}
use my_polkadot_orcale.Wasmstore.Board.{board, Course}
use my_polkadot_orcale.Wasmstore.Board.Refines.{Reach-Course}
use my_polkadot_orcale.Node.Executor.{JobResult, wasmstore_key_list, monitor_turn}
use my_polkadot_orcale.Pipeline.{key, payload}
use my_polkadot_orcale.Pipeline.Twice.{later, started_twice}
use my_polkadot_orcale.Pipeline.Delivery.{returns, delivered}
use my_polkadot_orcale.Pipeline.Scripts.{
  output_at, script_runtime, answer, numeric_output_delivered,
}
use my_polkadot_orcale.Examples.Scripts.{wasmtime, client, root, to_utf8, served, schema, is_wide}
use my_polkadot_orcale.Examples.Others.{scale, memory, utf16}
use my_polkadot_orcale.Examples.Fixture.{wasmstore, host}
use my_polkadot_orcale.Examples.Chain.{code, abi, job, chain, id, history, uploaded, request}
use my_polkadot_orcale.Examples.Worker.{worker, reader, utf8, result, ready, first, runs}

-- The chain a block later.
abbrev next_block : State → State
next_block t = record t { block_number = suc t.block_number }

started_twice_example :
    let w = later wasmstore (worker pending) id (job pending) (next_block (chain pending)) in
    let db = (offchain_worker wasmstore w).1.local in
    let k = key wasmstore (worker pending) id (job pending) in
    let p = payload wasmstore (worker pending) id (job pending) in
    (lookup wasmstore_key_list db ≡ some (init_value ++ (k ++ k)))
    × ((monitor_turn host db db).0 ≡ ok (p ∷ p ∷ []))
started_twice_example =
    started_twice wasmstore (worker pending) id (job pending) (next_block (chain pending))
      (ready pending) (first pending) refl refl
      (record { before = []; rest = []; visited = refl; passed_over = tt }) refl

-- Two state calls, with a block after each.
abbrev one_call : State
one_call = next_block (change_job_state wasmstore 0 4 id (chain pending)).1

abbrev two_calls : State
two_calls = next_block (change_job_state wasmstore 0 5 id one_call).1

later_block : (s : State) → Reach wasmstore s (next_block s)
later_block s = Reach.next Reach.here (Step.next_block s)

abbrev back : Worker
back = returns wasmstore (worker pending) id (job pending) reader utf8 two_calls 20 result

finished_there : lookup id two_calls.job_queue ≡ some (job finish)
unfolding change_job_state
finished_there = refl

again : FirstActive wasmstore back id (job finish)
unfolding change_job_state
again = record { before = []; rest = []; visited = refl; passed_over = tt }

delivered_example :
    let call =
      Call.submit_result_unsiged two_calls.block_number
        (key wasmstore (worker pending) id (job pending))
        (1 ∷ 2 ∷ 3 ∷ [])
        20
        35 in
    ((offchain_worker wasmstore back).0 ≡ ok tt)
    × ((offchain_worker wasmstore back).1.submitted ≡ [] ++ call ∷ [])
    × (lookup (id, 20) (dispatch wasmstore call 0 two_calls).1.script_result
        ≡ some (record { result_data = 1 ∷ 2 ∷ 3 ∷ []; ext_time = 35 }))
delivered_example =
    delivered wasmstore (worker pending) id (job pending) reader utf8 0 0 0 35 4 5 20 result
      (chain pending) one_call two_calls (job finish) (ready pending) (first pending) refl refl
      (λ call. refl) runs (refl, refl, refl) Reach.here (later_block _) (later_block _)
      (omega arith) finished_there again

-- The worker with the same job, whose script is run by the script runtime.
abbrev scripted : JobResult
scripted =
    answer wasmtime client scale to_utf8 utf16 (λ t. some root) utf8 wasmstore (worker pending) id
      (job pending) 1035 (output_at 0 8 memory)

abbrev scripted_back : Worker
scripted_back =
    returns wasmstore (worker pending) id (job pending)
      (script_runtime wasmtime client scale to_utf8 utf16 (λ t. some root) utf8) utf8 two_calls 20
      scripted

scripted_again : FirstActive wasmstore scripted_back id (job finish)
unfolding change_job_state
scripted_again = record { before = []; rest = []; visited = refl; passed_over = tt }

numeric_output_delivered_example :
    let call =
      Call.submit_result_unsiged two_calls.block_number
        (key wasmstore (worker pending) id (job pending))
        (output_at 0 8 memory)
        20
        35 in
    ((offchain_worker wasmstore scripted_back).0 ≡ ok tt)
    × ((offchain_worker wasmstore scripted_back).1.submitted ≡ [] ++ call ∷ [])
    × (lookup (id, 20) (dispatch wasmstore call 0 two_calls).1.script_result
        ≡ some (record { result_data = output_at 0 8 memory; ext_time = 35 }))
numeric_output_delivered_example =
    numeric_output_delivered wasmtime client scale to_utf8 utf16 (λ t. some root) utf8 wasmstore
      (worker pending) id (job pending) 0 0 0 1035 4 5 20 abi (9 ∷ []) 0 8 memory root
      (record { name = []; param_type = codes "i64" } ∷ []) (chain pending) one_call two_calls
      (job finish) refl refl (served code (λ e. cc)) schema (8, 0, is_wide, refl, refl)
      (omega arith) (ready pending) (first pending) refl refl (λ call. refl) (refl, refl, refl)
      Reach.here (later_block _) (later_block _) (omega arith) finished_there scripted_again

processing_stuck_example :
    (offchain_worker wasmstore (worker processing) ≡ (ok tt, worker processing))
    × (submit_result_unsiged wasmstore 0 4
          (wasmstore.encode_hash id)
          (9 ∷ [])
          20
          35
          (chain processing)
        ≡ (err (pallet_error invalid_operation), chain processing))
processing_stuck_example =
    processing_stuck wasmstore (worker processing) init_value init_value id (job processing) 0 4
      (wasmstore.encode_hash id) (9 ∷ []) 20 35 (ready processing) (((λ e. cc), (λ e. cc)), tt) refl
      refl refl refl

Reach-Course_example :
    Course wasmstore
      (board (genesis wasmstore []))
      (board (dispatch wasmstore request 8 uploaded).1)
Reach-Course_example = Reach-Course wasmstore history
