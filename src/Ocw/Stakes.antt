-- ===== src/Ocw/Stakes.antt =====
-- What the staking calls do on every branch, and what they do to the balances.
use my_polkadot_orcale.Prelude.{
  ℕ, ◌+◌, ◌-◌, ◌≤◌, ◌<◌, ◌≡◌, ◌⊎◌, inl, inr, none, some, true, false, nat_eq, lookup, contains_key,
  lookup-insert_self, lookup-remove, ok, err, Option-cases, arith,
}
use my_polkadot_orcale.Model.{Origin, AccountId}
use my_polkadot_orcale.Frame.{pallet_error}
use my_polkadot_orcale.Ocw.Types.{Config, State, insufficient_fund, already_staked, non_existed}
use my_polkadot_orcale.Ocw.Staking.{build_genesis, new_meta, staked, stake, un_stake, slash}

module _ {L : Type 0} (c : Config L) where
  -- The four ends of `stake` after the origin is known, in the order of the guards.
  pub stake_lem :
      (origin : Origin) (who : AccountId) (amount : ℕ) (s : State L)
      → c.ensure_signed origin ≡ some who
      → (contains_key who s.staked_processors ≡ true
          → stake c origin amount s ≡ (err (pallet_error already_staked), s))
        × (contains_key who s.staked_processors ≡ false
            → c.min_stake_amount ≤ amount
            → stake c origin amount s ≡ (err (pallet_error insufficient_fund), s))
        × (contains_key who s.staked_processors ≡ false
            → amount < c.min_stake_amount
            → stake c origin amount s
              ≡ (ok tt, staked c who amount (c.reserve s.ledger who amount) s))
  unfolding stake
  stake_lem origin who amount s signed =
      ((λ h. ground arith), (λ h small. ground arith), (λ h small. ground arith))

  -- An accepted stake of a signed account is below the configured minimum, whether or not the funds could be reserved;
  -- where they could, the amount moved from the free to the reserved balance of the new processor.
  pub stake-Staked :
      (origin : Origin) (who : AccountId) (amount : ℕ) (s : State L)
      → c.ensure_signed origin ≡ some who
      → (stake c origin amount s).0 ≡ ok tt
      → let s' = (stake c origin amount s).1 in
        (amount < c.min_stake_amount)
        × ((c.reserve s.ledger who amount ≡ none) × (s' ≡ s)
            ⊎ (lookup who s'.staked_processors ≡ some (new_meta c amount))
              × (c.free_balance s'.ledger who + amount ≡ c.free_balance s.ledger who)
              × (c.reserved_balance s'.ledger who ≡ c.reserved_balance s.ledger who + amount))
  unfolding stake
  stake-Staked origin who amount s signed h = elim (Option-cases (c.reserve s.ledger who amount)) [
    | inl e ↦ (ground arith, inl (e, ground arith))
    | inr (l, e) ↦
        let law = c.reserve_lem s.ledger l who amount e in
        (
          ground arith,
          inr (
            ground (arith, lookup-insert_self who (new_meta c amount) s.staked_processors),
            ground arith,
            ground arith,
          ),
        )
  ]

  -- For a signed account: leaving frees everything that the account has reserved, not only its stake, and the account is
  -- a processor no more; an account that is none is refused and nothing changes.
  pub un_stake_lem :
      (origin : Origin) (who : AccountId) (s : State L)
      → c.ensure_signed origin ≡ some who
      → let s' = (un_stake c origin s).1 in
        (contains_key who s.staked_processors ≡ false
          → un_stake c origin s ≡ (err (pallet_error non_existed), s))
        × (contains_key who s.staked_processors ≡ true
            → ((un_stake c origin s).0 ≡ ok tt)
              × (lookup who s'.staked_processors ≡ none)
              × (c.reserved_balance s'.ledger who ≡ 0)
              × (c.free_balance s'.ledger who
                  ≡ c.free_balance s.ledger who + c.reserved_balance s.ledger who))
  unfolding un_stake
  un_stake_lem origin who s signed =
      let law = c.unreserve_lem s.ledger who (c.reserved_balance s.ledger who) in
      (
        (λ h. ground arith),
        λ h. (
          ground arith,
          ground (arith, lookup-remove who who s.staked_processors),
          ground arith,
          ground arith,
        ),
      )

  -- With at least the existential deposit in the treasury, a signed slash is accepted only from an account that is no processor and has less than the amount
  -- reserved itself. It takes from the target what it has reserved, up to the amount, and the
  -- treasury's free balance grows by exactly that: nothing is created or lost.
  pub slash-Slashed :
      (origin : Origin) (who target : AccountId) (amount : ℕ) (s : State L)
      → c.ensure_signed origin ≡ some who
      → c.minimum_balance ≤ c.free_balance s.ledger c.treasury
      → (slash c origin target amount s).0 ≡ ok tt
      → let s' = (slash c origin target amount s).1 in
        (contains_key who s.staked_processors ≡ false)
        × (c.reserved_balance s.ledger who < amount)
        × (c.reserved_balance s'.ledger target ≡ c.reserved_balance s.ledger target - amount)
        × (c.free_balance s'.ledger c.treasury + c.reserved_balance s'.ledger target
            ≡ c.free_balance s.ledger c.treasury + c.reserved_balance s.ledger target)
  unfolding slash
  slash-Slashed origin who target amount s signed rich h =
      let taken = c.slash_reserved_lem s.ledger target amount in
      let paid =
        c.resolve_creating_lem (c.slash_reserved s.ledger target amount).2 c.treasury
          (c.slash_reserved s.ledger target amount).0 (rw (taken.3 c.treasury) rich) in
      (
        ground arith,
        ground arith,
        ground (arith, paid.1 target),
        ground (arith, taken.3 c.treasury, paid.1 target),
      )

  -- After genesis the treasury has the existential deposit, which `slash` relies on.
  pub build_genesis_lem :
      (s : State L) → c.minimum_balance ≤ c.free_balance (build_genesis c s).ledger c.treasury
  unfolding build_genesis
  build_genesis_lem s =
      ground (arith, c.make_free_balance_be_lem s.ledger c.treasury c.minimum_balance)
