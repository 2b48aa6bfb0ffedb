-- ===== src/Ocw/Interval.antt =====
-- How far apart unsigned prices are in a history.
use my_polkadot_orcale.Prelude.{
  ℕ, ◌+◌, ◌≡◌, ◌≤◌, ◌<◌, Bool, true, inl, inr, arith, u32_mod, Bytes, nat_eq, pair_eq,
}
use my_polkadot_orcale.Model.{Origin}
use my_polkadot_orcale.Frame.{valid, ValidTransaction}
use my_polkadot_orcale.Ocw.Types.{Config, State}
use my_polkadot_orcale.Ocw.Prices.{PricePayload}
use my_polkadot_orcale.Ocw.Unsigned.{Call, validate_unsigned}
use my_polkadot_orcale.Ocw.Rate.{NamesBlock, validate_unsigned-NamesBlock}
use my_polkadot_orcale.Ocw.Chain.{
  dispatch, called, called_unsigned, ledger_moves, next_block, Reach, here, next,
}
use my_polkadot_orcale.Ocw.Invariant.{IsValid, dispatch-IsValid}
use my_polkadot_orcale.Ocw.History.{Reach-IsValid}
use my_polkadot_orcale.Ocw.Timing.{Timed, dispatch-Timed, dispatch-sets}

module _ {L : Type 0} (c : Config L) (pos : 0 < c.max_prices) where
  -- From a state in which the next block is an interval away from `b`, it stays so.
  abbrev IsPast : ℕ → State L → Type 0
  IsPast b s = (b + c.unsigned_interval ≤ s.next_unsigned_at) × (b ≤ s.block_number)

  Timed-IsPast :
      (b : ℕ) (s t : State L)
      → Timed c s t
      → t.block_number + c.unsigned_interval < u32_mod
      → IsPast b s
      → IsPast b t
  Timed-IsPast b s t timed small past = elim timed.next_at [
    | inl same ↦ (omega (arith, same, past.0), omega (arith, timed.same_block, past.1))
    | inr set ↦ (
      omega (arith, set, past.1, timed.same_block, small),
      omega (arith, timed.same_block, past.1),
    )
  ]

  module _ (verify : PricePayload → Bytes → Bool) where
    Reach-IsPast :
        (b : ℕ) {s t : State L}
        → Reach c verify s t
        → IsValid c s
        → t.block_number + c.unsigned_interval < u32_mod
        → IsPast b s
        → IsPast b t
    Reach-IsPast b here v small past = past
    Reach-IsPast b (next r (called s call o e)) v small past =
        let timed = dispatch-Timed c pos call o s (Reach-IsValid c verify pos r v) in
        Timed-IsPast b s _ timed small
          (Reach-IsPast b r v (omega (arith, small, timed.same_block)) past)
    Reach-IsPast b (next r (called_unsigned s call o w e let_in)) v small past =
        let timed = dispatch-Timed c pos call o s (Reach-IsValid c verify pos r v) in
        Timed-IsPast b s _ timed small
          (Reach-IsPast b r v (omega (arith, small, timed.same_block)) past)
    Reach-IsPast b (next r (ledger_moves s ledger)) v small past =
        let before = Reach-IsPast b r v small past in
        (omega (arith, before.0), omega (arith, before.1))
    Reach-IsPast b (next r (next_block s)) v small past =
        let before = Reach-IsPast b r v (omega (arith, small)) past in
        (before.0, omega (arith, before.1))

    Reach-block :
        {s t : State L} → IsValid c s → Reach c verify s t → s.block_number ≤ t.block_number
    Reach-block v here = omega arith
    Reach-block v (next r (called s call o e)) =
        let timed = dispatch-Timed c pos call o s (Reach-IsValid c verify pos r v) in
        omega (arith, timed.same_block, Reach-block v r)
    Reach-block v (next r (called_unsigned s call o w e let_in)) =
        let timed = dispatch-Timed c pos call o s (Reach-IsValid c verify pos r v) in
        omega (arith, timed.same_block, Reach-block v r)
    Reach-block v (next r (ledger_moves s ledger)) = Reach-block v r
    Reach-block v (next r (next_block s)) = omega (arith, Reach-block v r)

    -- An unsigned price, alone or in a payload with a good signature, that is taken on a valid storage
    -- with room for a price: in any later state of any history, as long as the block number and
    -- the interval fit in 32 bits, an unsigned transaction is let in only if at least the interval
    -- has passed since the block of the first.
    pub unsigned_prices_apart :
        (o : Origin) (first : Call) (b : ℕ) (s : State L) {t : State L} (call : Call)
        (w : ValidTransaction)
        → IsValid c s
        → c.ensure_none o ≡ true
        → NamesBlock c verify first b
        → Reach c verify (dispatch c first o s).1 t
        → t.block_number + c.unsigned_interval < u32_mod
        → validate_unsigned c verify t call ≡ valid w
        → (m : ℕ) × NamesBlock c verify call m
          × (s.block_number + c.unsigned_interval ≤ m)
          × (m ≤ t.block_number)
    unsigned_prices_apart o first b s {t} call w v e named r small let_in =
        let set = dispatch-sets c pos verify first b o s v e named in
        let valid_after = dispatch-IsValid c pos first o s v in
        let later = Reach-block valid_after r in
        let past =
          Reach-IsPast s.block_number r valid_after small
            (omega (arith, set.1, small, later, set.0), omega (arith, set.0)) in
        let (m, names, low, high) = validate_unsigned-NamesBlock c verify t call w let_in in
        (m, names, omega (arith, past.0, low), high)
