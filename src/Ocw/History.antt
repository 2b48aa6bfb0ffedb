-- ===== src/Ocw/History.antt =====
-- What holds in every history of the ocw pallet.
use my_polkadot_orcale.Prelude.{
  ℕ, ◌≡◌, ◌<◌, refl, Bool, Option, arith, nat_eq, pair_eq, Bytes, ok, [],
}
use my_polkadot_orcale.Model.{AccountId}
use my_polkadot_orcale.Ocw.Types.{Config, State}
use my_polkadot_orcale.Ocw.Prices.{PricePayload, add_data}
use my_polkadot_orcale.Ocw.Staking.{build_genesis}
use my_polkadot_orcale.Ocw.Feed.{add_data-Added}
use my_polkadot_orcale.Ocw.Chain.{
  called, called_unsigned, ledger_moves, next_block, Reach, here, next,
}
use my_polkadot_orcale.Ocw.Invariant.{IsValid, IsValid-same, dispatch-IsValid}

module _ {L : Type 0} (c : Config L) where
  -- The storage before the first block, on some ledger.
  abbrev pub genesis : L → State L
  genesis ledger = build_genesis c (record {
    prices = [];
    api_url_store = [];
    hash_store = [];
    staked_processors = [];
    next_unsigned_at = 0;
    block_number = 0;
    events = [];
    ledger = ledger;
  })

  genesis-IsValid : (ledger : L) → IsValid c (genesis ledger)
  unfolding build_genesis
  genesis-IsValid ledger = ground arith

  module _ (verify : PricePayload → Bytes → Bool) where
    pub Reach-IsValid :
        {s t : State L} → 0 < c.max_prices → Reach c verify s t → IsValid c s → IsValid c t
    Reach-IsValid pos here v = v
    Reach-IsValid pos (next r (called s call o signed)) v =
        dispatch-IsValid c pos call o s (Reach-IsValid pos r v)
    Reach-IsValid pos (next r (called_unsigned s call o w e let_in)) v =
        dispatch-IsValid c pos call o s (Reach-IsValid pos r v)
    Reach-IsValid pos (next r (ledger_moves s ledger)) v =
        IsValid-same c s _ refl refl refl (Reach-IsValid pos r v)
    Reach-IsValid pos (next r (next_block s)) v =
        IsValid-same c s _ refl refl refl (Reach-IsValid pos r v)

    -- In every history of the pallet from its genesis, the prices stay within the configured number
    -- of at least one and the URLs within 256 bytes, every processor has staked less than the
    -- configured minimum, with the first score and no nominators, and adding a price never panics.
    pub prices_history-IsValid :
        (ledger : L) {t : State L}
        → 0 < c.max_prices
        → Reach c verify (genesis ledger) t
        → IsValid c t × ((who : Option AccountId) (p : ℕ) → (add_data c who p t).0 ≡ ok tt)
    prices_history-IsValid ledger {t} pos r =
        let v = Reach-IsValid pos r (genesis-IsValid ledger) in
        (v, λ who p. (add_data-Added c who p t pos v.prices_fit).0)
