-- ===== src/Ocw/Timing.antt =====
-- What a call of the ocw pallet does to the block from which the next unsigned price may come.
use my_polkadot_orcale.Prelude.{
  ℕ, ◌+◌, ◌%◌, ◌≡◌, ◌<◌, ◌⊎◌, refl, Bool, true, Option, none, some, Bool-cases, Option-cases, inl,
  inr, arith, u32_mod, Bytes, nat_eq, pair_eq, contains_key, ltb,
}
use my_polkadot_orcale.Model.{Origin, AccountId}
use my_polkadot_orcale.Ocw.Types.{Config, State}
use my_polkadot_orcale.Ocw.Prices.{
  PricePayload, add_data, submit_price, submit_price_unsigned,
  submit_price_unsigned_with_signed_payload,
}
use my_polkadot_orcale.Ocw.Staking.{stake, un_stake, slash, test_acc, submit_api_url, staked}
use my_polkadot_orcale.Ocw.Unsigned.{Call}
use my_polkadot_orcale.Ocw.Rate.{NamesBlock}
use my_polkadot_orcale.Ocw.Feed.{add_data-Added}
use my_polkadot_orcale.Ocw.Chain.{dispatch}
use my_polkadot_orcale.Ocw.Invariant.{IsValid}

module _ {L : Type 0} (c : Config L) where
  -- The block after a call is the same, and so is the next block for an unsigned price, unless
  -- the call has set it.
  pub record Timed (s t : State L) : Type 0 where
    pub same_block : t.block_number ≡ s.block_number
    pub next_at :
        (t.next_unsigned_at ≡ s.next_unsigned_at)
        ⊎ (t.next_unsigned_at ≡ (s.block_number + c.unsigned_interval) % u32_mod)

  Timed-same : (s : State L) → Timed s s
  Timed-same s = record { same_block = refl; next_at = inl refl }

  add_data-Timed :
      (who : Option AccountId) (p : ℕ) (s : State L)
      → 0 < c.max_prices
      → IsValid c s
      → Timed s (add_data c who p s).1
  add_data-Timed who p s pos v =
      let (okay, a) = add_data-Added c who p s pos v.prices_fit in
      record { same_block = a.same_block; next_at = inl a.same_next }

  stake-Timed : (o : Origin) (amount : ℕ) (s : State L) → Timed s (stake c o amount s).1
  unfolding stake
  stake-Timed o amount s = elim (Option-cases (c.ensure_signed o)) [
    | inl e ↦ rw e (Timed-same s)
    | inr (who, e) ↦ elim (Bool-cases (contains_key who s.staked_processors)) [
      | inl f ↦ rw e (rw f (Timed-same s))
      | inr f ↦ elim (Bool-cases (ltb amount c.min_stake_amount)) [
        | inl g ↦ rw e (rw f (rw g (go who (c.reserve s.ledger who amount))))
        | inr g ↦ rw e (rw f (rw g (Timed-same s)))
      ]
    ]
  ]
    where
      go : (who : AccountId) (o : Option L) → Timed s (staked c who amount o s)
      go who none = Timed-same s
      go who (some ledger) = record { same_block = refl; next_at = inl refl }

  un_stake-Timed : (o : Origin) (s : State L) → Timed s (un_stake c o s).1
  unfolding un_stake
  un_stake-Timed o s = ground arith

  slash-Timed :
      (o : Origin) (target : AccountId) (amount : ℕ) (s : State L)
      → Timed s (slash c o target amount s).1
  unfolding slash
  slash-Timed o target amount s = ground arith

  test_acc-Timed : (o : Origin) (s : State L) → Timed s (test_acc c o s).1
  unfolding test_acc
  test_acc-Timed o s = ground arith

  submit_api_url-Timed :
      (o : Origin) (topic : ℕ) (url : Bytes) (s : State L)
      → Timed s (submit_api_url c o topic url s).1
  unfolding submit_api_url
  submit_api_url-Timed o topic url s = ground arith

  module _ (pos : 0 < c.max_prices) where
    submit_price-Timed :
        (o : Origin) (p : ℕ) (s : State L) → IsValid c s → Timed s (submit_price c o p s).1
    unfolding submit_price
    submit_price-Timed o p s v = elim (Option-cases (c.ensure_signed o)) [
      | inl e ↦ rw e (Timed-same s)
      | inr (who, e) ↦ rw e (add_data-Timed (some who) p s pos v)
    ]

    -- An unsigned price sets the next block.
    pub submit_price_unsigned-sets :
        (o : Origin) (n p : ℕ) (s : State L)
        → IsValid c s
        → c.ensure_none o ≡ true
        → let t = (submit_price_unsigned c o n p s).1 in
          (t.block_number ≡ s.block_number)
          × (t.next_unsigned_at ≡ (s.block_number + c.unsigned_interval) % u32_mod)
    unfolding submit_price_unsigned
    submit_price_unsigned-sets o n p s v e =
        let (okay, a) = add_data-Added c none p s pos v.prices_fit in
        rw (e, okay) (a.same_block, rw a.same_block refl)

    -- So does either unsigned call.
    pub dispatch-sets :
        (verify : PricePayload → Bytes → Bool) (call : Call) (b : ℕ) (o : Origin) (s : State L)
        → IsValid c s
        → c.ensure_none o ≡ true
        → NamesBlock c verify call b
        → let t = (dispatch c call o s).1 in
          (t.block_number ≡ s.block_number)
          × (t.next_unsigned_at ≡ (s.block_number + c.unsigned_interval) % u32_mod)
    unfolding dispatch submit_price_unsigned_with_signed_payload
    dispatch-sets verify (Call.submit_price_unsigned n p) b o s v e named =
        submit_price_unsigned-sets o n p s v e
    dispatch-sets verify (Call.submit_price_unsigned_with_signed_payload pay sig) b o s v e named =
        unfold submit_price_unsigned in
        submit_price_unsigned-sets o pay.block_number pay.price s v e
    dispatch-sets verify _ b o s v e named = absurd named

    unsigned-Timed :
        (o : Origin) (n p : ℕ) (s : State L)
        → IsValid c s
        → Timed s (submit_price_unsigned c o n p s).1
    unsigned-Timed o n p s v = elim (Bool-cases (c.ensure_none o)) [
      | inl e ↦
          let set = submit_price_unsigned-sets o n p s v e in
          record { same_block = set.0; next_at = inr set.1 }
      | inr e ↦ unfold submit_price_unsigned in rw e (Timed-same s)
    ]

    pub dispatch-Timed :
        (call : Call) (o : Origin) (s : State L) → IsValid c s → Timed s (dispatch c call o s).1
    unfolding dispatch submit_price_unsigned_with_signed_payload
    dispatch-Timed (Call.stake amount) o s v = stake-Timed o amount s
    dispatch-Timed Call.un_stake o s v = un_stake-Timed o s
    dispatch-Timed (Call.slash target amount) o s v = slash-Timed o target amount s
    dispatch-Timed Call.test_acc o s v = test_acc-Timed o s
    dispatch-Timed (Call.submit_price p) o s v = submit_price-Timed o p s v
    dispatch-Timed (Call.submit_price_unsigned n p) o s v = unsigned-Timed o n p s v
    dispatch-Timed (Call.submit_price_unsigned_with_signed_payload pay sig) o s v =
        unfold submit_price_unsigned in unsigned-Timed o pay.block_number pay.price s v
    dispatch-Timed (Call.submit_api_url topic url) o s v = submit_api_url-Timed o topic url s
