-- ===== src/Examples/Prices.antt =====
-- Examples for the ocw pallet.
use my_polkadot_orcale.Prelude.{
  ◌+◌, ◌-◌, ◌≡◌, ◌≤◌, ◌<◌, ◌⊎◌, refl, Bytes, Bool, none, some, [], ◌∷◌, lookup, contains_key, ok,
  err, arith, true, false, nat_eq, u32_mod,
}
use my_polkadot_orcale.Frame.{pallet_error}
use my_polkadot_orcale.Ocw.Types.{State, non_existed}
use my_polkadot_orcale.Ocw.Prices.{average_price, saturating_sum, PricePayload}
use my_polkadot_orcale.Ocw.Staking.{new_meta, stake, un_stake, slash}
use my_polkadot_orcale.Ocw.Average.{sum, average_price-between}
use my_polkadot_orcale.Ocw.Stakes.{stake-Staked, un_stake_lem, slash-Slashed}
use my_polkadot_orcale.Examples.Fixture.{Ledger, ocw}

-- Two prices, one processor, and every account with 100 free and 5 reserved.
abbrev pub prices : State Ledger
prices = record {
  prices = 10 ∷ 20 ∷ [];
  api_url_store = [];
  hash_store = [];
  staked_processors = (7, new_meta ocw 0) ∷ [];
  next_unsigned_at = 3;
  block_number = 4;
  events = [];
  ledger = ((λ a. 100), (λ a. 5));
}

average_15 : average_price (10 ∷ 20 ∷ []) ≡ some 15
unfolding average_price saturating_sum
average_15 = refl

average_price-between_example : (15 ≤ 20) × (sum (10 ∷ 20 ∷ []) < u32_mod → 10 ≤ 15)
average_price-between_example =
    average_price-between 10 20 15 (10 ∷ 20 ∷ []) (omega arith, (omega arith, tt))
      (omega arith, (omega arith, tt)) average_15

pub verifies : PricePayload → Bytes → Bool
verifies p sig = true

stake_ok : (stake ocw 9 0 prices).0 ≡ ok tt
unfolding stake
stake_ok = refl

stake-Staked_example :
    let s' = (stake ocw 9 0 prices).1 in
    (0 < 1)
    × ((ocw.reserve prices.ledger 9 0 ≡ none) × (s' ≡ prices)
        ⊎ (lookup 9 s'.staked_processors ≡ some (new_meta ocw 0))
          × (ocw.free_balance s'.ledger 9 + 0 ≡ ocw.free_balance prices.ledger 9)
          × (ocw.reserved_balance s'.ledger 9 ≡ ocw.reserved_balance prices.ledger 9 + 0))
stake-Staked_example = stake-Staked ocw 9 9 0 prices refl stake_ok

un_stake_lem_example :
    let s' = (un_stake ocw 7 prices).1 in
    (contains_key 7 prices.staked_processors ≡ false
      → un_stake ocw 7 prices ≡ (err (pallet_error non_existed), prices))
    × (contains_key 7 prices.staked_processors ≡ true
        → ((un_stake ocw 7 prices).0 ≡ ok tt)
          × (lookup 7 s'.staked_processors ≡ none)
          × (ocw.reserved_balance s'.ledger 7 ≡ 0)
          × (ocw.free_balance s'.ledger 7
              ≡ ocw.free_balance prices.ledger 7 + ocw.reserved_balance prices.ledger 7))
un_stake_lem_example = un_stake_lem ocw 7 7 prices refl

slash_ok : (slash ocw 9 7 50 prices).0 ≡ ok tt
unfolding slash
slash_ok = refl

slash-Slashed_example :
    let s' = (slash ocw 9 7 50 prices).1 in
    (contains_key 9 prices.staked_processors ≡ false)
    × (ocw.reserved_balance prices.ledger 9 < 50)
    × (ocw.reserved_balance s'.ledger 7 ≡ ocw.reserved_balance prices.ledger 7 - 50)
    × (ocw.free_balance s'.ledger 1000 + ocw.reserved_balance s'.ledger 7
        ≡ ocw.free_balance prices.ledger 1000 + ocw.reserved_balance prices.ledger 7)
slash-Slashed_example = slash-Slashed ocw 9 9 7 50 prices refl (omega arith) slash_ok
