-- ===== src/Ocw/Rate.antt =====
-- How the pallet limits the rate of unsigned prices.
use my_polkadot_orcale.Prelude.{
  ℕ, ◌+◌, ◌≤◌, ◌<◌, ◌≡◌, refl, ◌∷◌, [], none, Bool, true, Bytes, length, ok, arith, u32_mod,
  saturating_add64, codes,
}
use my_polkadot_orcale.Model.{Origin}
use my_polkadot_orcale.Frame.{valid, invalid, ValidTransaction, future, stale}
use my_polkadot_orcale.Ocw.Types.{Config, State}
use my_polkadot_orcale.Ocw.Prices.{average_price, PricePayload, submit_price_unsigned}
use my_polkadot_orcale.Ocw.Unsigned.{
  Call, deviation, validate_transaction_parameters, validate_unsigned,
}
use my_polkadot_orcale.Ocw.Feed.{add_data-Added}

module _ {L : Type 0} (c : Config L) where
  -- The check of block and price, on every branch. A valid transaction is tagged with the block
  -- from which the next one may come, so that the pool keeps only one of them, and it has the
  -- higher priority the further its price is from the average.
  pub validate_transaction_parameters_lem :
      (s : State L) (n p : ℕ)
      → (n < s.next_unsigned_at → validate_transaction_parameters c s n p ≡ invalid stale)
        × (s.next_unsigned_at ≤ n
            → s.block_number < n
            → validate_transaction_parameters c s n p ≡ invalid future)
        × (s.next_unsigned_at ≤ n
            → n ≤ s.block_number
            → (v : ValidTransaction) × (validate_transaction_parameters c s n p ≡ valid v)
              × (v.provides ≡ s.next_unsigned_at ∷ [])
              × (v.priority
                  ≡ saturating_add64 c.unsigned_priority (deviation (average_price s.prices) p)))
  unfolding validate_transaction_parameters
  validate_transaction_parameters_lem s n p = (
    (λ h. ground arith),
    (λ h g. ground arith),
    λ h g. (
      record {
        prefix = codes "OffchainWorker";
        priority = saturating_add64 c.unsigned_priority (deviation (average_price s.prices) p);
        provides = s.next_unsigned_at ∷ [];
        longevity = 5;
        propagate = true;
      },
      ground arith,
      refl,
      refl,
    ),
  )

  -- The block that an unsigned call names, with the signature of a payload checked.
  abbrev pub NamesBlock : (PricePayload → Bytes → Bool) → Call → ℕ → Type 0
  NamesBlock verify (Call.submit_price_unsigned b p) n = b ≡ n
  NamesBlock verify (Call.submit_price_unsigned_with_signed_payload pay sig) n =
      (verify pay sig ≡ true) × (pay.block_number ≡ n)
  NamesBlock verify _ n = ⊥

  -- A transaction is let in only for one of the two unsigned calls, with a good signature where it
  -- has one, and for a block between the next allowed one and the current one.
  pub validate_unsigned-NamesBlock :
      (verify : PricePayload → Bytes → Bool) (s : State L) (u : Call) (v : ValidTransaction)
      → validate_unsigned c verify s u ≡ valid v
      → (n : ℕ) × NamesBlock verify u n × (s.next_unsigned_at ≤ n) × (n ≤ s.block_number)
  unfolding validate_unsigned validate_transaction_parameters
  validate_unsigned-NamesBlock verify s (Call.submit_price_unsigned b p) v h =
      (b, refl, ground arith, ground arith)
  validate_unsigned-NamesBlock verify s (Call.submit_price_unsigned_with_signed_payload pay sig) v
        h =
      (pay.block_number, (ground arith, refl), ground arith, ground arith)
  validate_unsigned-NamesBlock verify s _ v h = absurd (ground (arith, h))

  -- An accepted unsigned price sets the next allowed block to one interval after the current one.
  pub submit_price_unsigned-next :
      (origin : Origin) (n p : ℕ) (s : State L)
      → 0 < c.max_prices
      → length s.prices ≤ c.max_prices
      → s.block_number + c.unsigned_interval < u32_mod
      → (submit_price_unsigned c origin n p s).0 ≡ ok tt
      → (submit_price_unsigned c origin n p s).1.next_unsigned_at
        ≡ s.block_number + c.unsigned_interval
  unfolding submit_price_unsigned
  submit_price_unsigned-next origin n p s pos fits small done =
      let (okay, rest) = add_data-Added c none p s pos fits in ground (arith, rest.same_block)

  -- With room for a price, a list within its bound and no overflow of the block number, an unsigned
  -- price that is taken at block `b` closes the door for the interval: in any later state in which
  -- the limit is unchanged, an unsigned transaction that is let in names a block of at least
  -- `b + interval` and at most the current one.
  pub submit_price_unsigned-limits :
      (verify : PricePayload → Bytes → Bool) (origin : Origin) (n p : ℕ) (s t : State L) (u : Call)
      (v : ValidTransaction)
      → 0 < c.max_prices
      → length s.prices ≤ c.max_prices
      → s.block_number + c.unsigned_interval < u32_mod
      → (submit_price_unsigned c origin n p s).0 ≡ ok tt
      → t.next_unsigned_at ≡ (submit_price_unsigned c origin n p s).1.next_unsigned_at
      → validate_unsigned c verify t u ≡ valid v
      → (m : ℕ) × NamesBlock verify u m
        × (s.block_number + c.unsigned_interval ≤ m)
        × (m ≤ t.block_number)
  submit_price_unsigned-limits verify origin n p s t u v pos fits small done same h =
      let next = submit_price_unsigned-next origin n p s pos fits small done in
      let (m, names, low, high) = validate_unsigned-NamesBlock verify t u v h in
      (m, names, omega arith, high)
