-- ===== src/Examples/Runtime.antt =====
-- Examples for histories of the runtime with both of its pallets.
use my_polkadot_orcale.Prelude.{
  ℕ, suc, true, ◌∷◌, ◌≡◌, refl, Option, some, [], lookup, ok, nat_eq, codes,
}
use my_polkadot_orcale.Model.{AccountId}
use my_polkadot_orcale.Frame.{valid}
use my_polkadot_orcale.Ocw.Types.{Meta}
use my_polkadot_orcale.Ocw.Prices.{add_data, average_price}
use my_polkadot_orcale.Ocw.Staking.{build_genesis}
use my_polkadot_orcale.Ocw.Unsigned as OcwUnsigned
use my_polkadot_orcale.Runtime.Chain.{
  Storage, RuntimeCall, dispatch, validate_unsigned, Step, Reach,
}
use my_polkadot_orcale.Runtime.History.{genesis, IsSound, runtime_history-IsSound}
use my_polkadot_orcale.Examples.Fixture.{host, put_job, distinct, Ledger, balances, ocw}
use my_polkadot_orcale.Examples.Chain.{upload}
use my_polkadot_orcale.Examples.Prices.{verifies}

-- A script is uploaded, an unsigned price comes in, balances move, a block passes, and an account
-- stakes nothing.
abbrev start : Storage Ledger
start = genesis 1000 host put_job distinct balances verifies [] ((λ a. 100), (λ a. 0))

abbrev run : RuntimeCall → ℕ → Storage Ledger → Storage Ledger
run = dispatch 1000 host put_job distinct balances verifies

abbrev price : RuntimeCall
price = RuntimeCall.ocw_pallet (OcwUnsigned.Call.submit_price_unsigned 0 30)

abbrev stakes : RuntimeCall
stakes = RuntimeCall.ocw_pallet (OcwUnsigned.Call.stake 0)

abbrev published : Storage Ledger
published = run (RuntimeCall.wasm_store_pallet upload) 7 start

abbrev priced : Storage Ledger
priced = run price 0 published

abbrev paid : Storage Ledger
paid = record priced { ocw = record priced.ocw { ledger = ((λ a. 50), (λ a. 3)) } }

abbrev later : Storage Ledger
later = record {
  wasmstore = record paid.wasmstore { block_number = suc paid.wasmstore.block_number };
  ocw = record paid.ocw { block_number = suc paid.ocw.block_number };
}

let_in :
    validate_unsigned 1000 host put_job distinct balances verifies published price
    ≡ some (
        valid (record {
          prefix = codes "OffchainWorker";
          priority = 3;
          provides = 0 ∷ [];
          longevity = 5;
          propagate = true;
        }))
unfolding validate_unsigned dispatch OcwUnsigned.validate_unsigned
    OcwUnsigned.validate_transaction_parameters OcwUnsigned.deviation build_genesis average_price
let_in = refl

runtime_history-IsSound_example :
    let s = run stakes 9 later in
    IsSound 1000 host put_job distinct balances verifies s
    × ((who : Option AccountId) (p : ℕ) → (add_data ocw who p s.ocw).0 ≡ ok tt)
    × ((who : AccountId) (m : Meta)
        → lookup who s.ocw.staked_processors ≡ some m
        → m.total_stake ≡ 0)
runtime_history-IsSound_example =
    runtime_history-IsSound 1000 host put_job distinct balances verifies [] ((λ a. 100), (λ a. 0))
      (Reach.next
        (Reach.next
          (Reach.next
            (Reach.next
              (Reach.next Reach.here
                (Step.called start (RuntimeCall.wasm_store_pallet upload) 7 refl))
              (Step.called_unsigned published price 0 _ refl let_in))
            (Step.ledger_moves priced ((λ a. 50), (λ a. 3))))
          (Step.next_block paid))
        (Step.called later stakes 9 refl))
