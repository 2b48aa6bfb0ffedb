-- ===== src/Ocw/Staking.antt =====
-- The staking calls of the ocw pallet, its other calls, and its genesis.
use my_polkadot_orcale.Prelude.{
  ℕ, Bytes, not, Option, none, some, [], length, ltb, nat_eq, pair_eq, lookup, contains_key, insert,
  remove, gets, modify, ensure, ok_or, expect, ◌>>=◌, ◌>>◌, if◌then◌else◌,
}
use my_polkadot_orcale.Model.{Origin, AccountId}
use my_polkadot_orcale.Frame.{bad_origin, pallet_error}
use my_polkadot_orcale.Ocw.Types.{
  Config, State, Dispatch, Meta, insufficient_fund, already_staked, non_existed, processor_staked,
  processor_remove, slash_event, treasury_acc, add_new_url, deposit_event,
}

module _ {L : Type 0} (c : Config L) where
  -- `BuildGenesisConfig::build`: the treasury is filled up to the existential deposit.
  unfoldable pub build_genesis : State L → State L
  build_genesis s =
      if ltb (c.free_balance s.ledger c.treasury) c.minimum_balance
      then record s { ledger = c.make_free_balance_be s.ledger c.treasury c.minimum_balance }
      else s

  abbrev pub new_meta : ℕ → Meta
  new_meta amount = record { total_stake = amount; credit_score = 80; nominators = [] }

  -- `match reserve(..)`: where the funds cannot be reserved, the call only logs that and succeeds.
  abbrev pub staked : AccountId → ℕ → Option L → State L → State L
  staked who amount none s = s
  staked who amount (some ledger) s = deposit_event (processor_staked who amount) (record s {
    ledger = ledger;
    staked_processors = insert who (new_meta amount) s.staked_processors;
  })

  unfoldable pub stake : Origin → ℕ → Dispatch L (Unit {0})
  stake origin amount = do
    who ← ok_or (c.ensure_signed origin) bad_origin
    is_staked ← gets (λ s. contains_key who s.staked_processors)
    ensure (not is_staked) (pallet_error already_staked)
    ensure (ltb amount c.min_stake_amount) (pallet_error insufficient_fund)
    modify (λ s. staked who amount (c.reserve s.ledger who amount) s)

  abbrev pub unstaked : AccountId → State L → State L
  unstaked who s = deposit_event (processor_remove who) (record s {
    ledger = c.unreserve s.ledger who (c.reserved_balance s.ledger who);
    staked_processors = remove who s.staked_processors;
  })

  unfoldable pub un_stake : Origin → Dispatch L (Unit {0})
  un_stake origin = do
    who ← ok_or (c.ensure_signed origin) bad_origin
    val ← gets (λ s. lookup who s.staked_processors)
    old ← ok_or val (pallet_error non_existed)
    modify (unstaked who)

  abbrev pub slashed : AccountId → ℕ → ℕ × ℕ × L → State L → State L
  slashed target amount (imbalance, remaining, ledger) s =
      deposit_event (slash_event target amount remaining)
        (record s { ledger = c.resolve_creating ledger c.treasury imbalance })

  -- Both guards look at the caller; the slash is of `mock_target`.
  unfoldable pub slash : Origin → AccountId → ℕ → Dispatch L (Unit {0})
  slash origin mock_target slash_amount = do
    who ← ok_or (c.ensure_signed origin) bad_origin
    reserved ← gets (λ s. c.reserved_balance s.ledger who)
    ensure (ltb reserved slash_amount) (pallet_error insufficient_fund)
    is_staked ← gets (λ s. contains_key who s.staked_processors)
    ensure (not is_staked) (pallet_error non_existed)
    modify (λ s.
        slashed mock_target slash_amount (c.slash_reserved s.ledger mock_target slash_amount) s)

  unfoldable pub test_acc : Origin → Dispatch L (Unit {0})
  test_acc origin = do
    who ← ok_or (c.ensure_signed origin) bad_origin
    free ← gets (λ s. c.free_balance s.ledger c.treasury)
    modify (deposit_event (treasury_acc c.treasury free))

  -- A URL over 256 bytes makes `expect("Good")` panic; root is refused.
  unfoldable pub submit_api_url : Origin → ℕ → Bytes → Dispatch L (Unit {0})
  submit_api_url origin topic_id api_url = do
    signer ← ok_or (c.ensure_signed_or_root origin) bad_origin
    who ← ok_or signer bad_origin
    url ← expect (c.try_from 256 api_url)
    modify (λ s. record s { api_url_store = insert (who, topic_id) url s.api_url_store })
    modify (deposit_event (add_new_url who (length url)))
