-- ===== src/Examples/Races.antt =====
-- Examples for histories of the ocw pallet, and for a worker that the executor overtakes.
use my_polkadot_orcale.Prelude.{
  ℕ, suc, ◌+◌, ◌≡◌, ◌≤◌, refl, some, List, [], ◌∷◌, ◌++◌, All, lookup, ok, true, bytes_eq, nat_eq,
  pair_eq, flatten, arith, codes,
}
use my_polkadot_orcale.Model.{ResponePayload, pending, finish}
use my_polkadot_orcale.Frame.{valid}
use my_polkadot_orcale.Wasmstore.Worker.{
  Worker, master_key, master_result_key, init_value, request_of, after_reading,
}
use my_polkadot_orcale.Wasmstore.Run.{asked}
use my_polkadot_orcale.Pipeline.Reset.{read_list, reset, reset_job_unlisted}
use my_polkadot_orcale.Wasmstore.Types as Wasmstore
use my_polkadot_orcale.Wasmstore.Handoff.{ocw_do_handling_result-append}
use my_polkadot_orcale.Pipeline.Again.{FinishedFirst, runs, submitted_again}
use my_polkadot_orcale.Ocw.Types.{State}
use my_polkadot_orcale.Ocw.Prices.{
  add_data, submit_price_unsigned, push_price, average_price, saturating_sum,
}
use my_polkadot_orcale.Ocw.Unsigned.{
  Call, validate_unsigned, validate_transaction_parameters, deviation,
}
use my_polkadot_orcale.Ocw.Rate.{NamesBlock}
use my_polkadot_orcale.Ocw.Chain.{dispatch, Step, Reach}
use my_polkadot_orcale.Ocw.Invariant.{IsValid}
use my_polkadot_orcale.Ocw.Interval.{unsigned_prices_apart}
use my_polkadot_orcale.Examples.Fixture.{wasmstore, zeros, Ledger, ocw}
use my_polkadot_orcale.Examples.Chain.{job, chain, id}
use my_polkadot_orcale.Examples.Prices.{prices, verifies}

-- A key list with one job on it.
abbrev listed : Worker
listed = record {
  chain = chain pending;
  local =
      (master_key, init_value ++ flatten (zeros 32 ∷ [])) ∷ (master_result_key, init_value) ∷ [];
  submitted = [];
  accepts = λ call. true;
}

reset_job_unlisted_example :
    let w = reset wasmstore listed id (job pending) (zeros 32) [] in
    let after' =
      (after_reading wasmstore
        (read_list wasmstore listed id (job pending) (zeros 32) [])
        init_value
        w).1 in
    (lookup master_key after'.local ≡ some init_value)
    × (lookup master_result_key after'.local ≡ some init_value)
    × (lookup (wasmstore.encode_hash id) after'.local
        ≡ some (wasmstore.encode_request (request_of wasmstore id (job pending) (ok tt))))
    × (after'.submitted ≡ [] ++ asked listed id ∷ [])
reset_job_unlisted_example =
    reset_job_unlisted wasmstore listed id (job pending) (zeros 32) [] (refl, tt) refl refl
      (record { before = []; rest = []; visited = refl; passed_over = tt }) refl refl

abbrev respone : ResponePayload
respone = record {
  job_id = wasmstore.encode_hash id;
  job_result = 1 ∷ 2 ∷ [];
  job_state = finish;
  address = 20;
  exe_time = 35;
}

-- A finished job whose result is listed, on two blocks that say so.
abbrev answered : Worker
answered = record {
  chain = chain finish;
  local =
      (master_key, init_value)
      ∷ (master_result_key, init_value ++ flatten (wasmstore.encode_hash id ∷ []))
      ∷ (wasmstore.encode_hash id, wasmstore.encode_respone respone)
      ∷ [];
  submitted = [];
  accepts = λ call. true;
}

abbrev two_blocks : List Wasmstore.State
two_blocks = chain finish ∷ record (chain finish) { block_number = 5 } ∷ []

two_blocks_first : All (FinishedFirst wasmstore) two_blocks
two_blocks_first =
    let first : FinishedFirst wasmstore (chain finish) = record {
      id = id;
      job = job finish;
      before = [];
      rest = [];
      visited = refl;
      passed_over = tt;
      finished = refl;
    } in
    let second : FinishedFirst wasmstore (record (chain finish) { block_number = 5 }) = record {
      id = id;
      job = job finish;
      before = [];
      rest = [];
      visited = refl;
      passed_over = tt;
      finished = refl;
    } in
    (first, (second, tt))

abbrev submission : ℕ → Wasmstore.Call
submission n = Wasmstore.Call.submit_result_unsiged n (wasmstore.encode_hash id) (1 ∷ 2 ∷ []) 20 35

-- Both blocks submit the one result.
submitted_again_example :
    ((runs wasmstore two_blocks answered).submitted ≡ submission 4 ∷ submission 5 ∷ [])
    × ((runs wasmstore two_blocks answered).local ≡ answered.local)
submitted_again_example =
    submitted_again wasmstore init_value (init_value ++ flatten (wasmstore.encode_hash id ∷ []))
      (wasmstore.encode_hash id ∷ []) two_blocks answered (refl, refl)
      (ocw_do_handling_result-append (wasmstore.encode_hash id) [] (refl, tt)) (λ call. refl)
      two_blocks_first

abbrev tick : State Ledger → State Ledger
tick s = record s { block_number = suc s.block_number }

-- An unsigned price at block 4, and the next one at block 7.
abbrev taken : State Ledger
taken = (dispatch ocw (Call.submit_price_unsigned 4 30) 0 prices).1

abbrev later : State Ledger
later = tick (tick (tick taken))

prices-IsValid : IsValid ocw prices
prices-IsValid = record {
  prices_fit = omega arith;
  urls_fit = λ key url there. absurd (ground (arith, there));
  stakes_small = λ who m there. ground (arith, there);
}

let_in :
    validate_unsigned ocw verifies later (Call.submit_price_unsigned 7 30)
    ≡ valid (record {
      prefix = codes "OffchainWorker";
      priority = 13;
      provides = 7 ∷ [];
      longevity = 5;
      propagate = true;
    })
unfolding validate_unsigned validate_transaction_parameters dispatch submit_price_unsigned add_data
    push_price average_price saturating_sum deviation
let_in = refl

small : later.block_number + 3 ≡ 10
unfolding dispatch submit_price_unsigned add_data push_price average_price saturating_sum
small = refl

unsigned_prices_apart_example :
    (m : ℕ) × NamesBlock ocw verifies (Call.submit_price_unsigned 7 30) m
    × (4 + 3 ≤ m)
    × (m ≤ later.block_number)
unsigned_prices_apart_example =
    unsigned_prices_apart ocw (omega arith) verifies 0 (Call.submit_price_unsigned 4 30) 4 prices
      (Call.submit_price_unsigned 7 30) _ prices-IsValid refl refl
      (Reach.next
        (Reach.next (Reach.next Reach.here (Step.next_block taken)) (Step.next_block (tick taken)))
        (Step.next_block (tick (tick taken))))
      (omega (arith, small)) let_in
