-- ===== src/Ocw/Choice.antt =====
-- What the offchain worker of the ocw pallet sends in a block, and what a refused attempt leaves.
use my_polkadot_orcale.Prelude.{
  ℕ, ◌+◌, ◌≡◌, ◌≢◌, ◌<◌, ◌≤◌, refl, sym, ◌∙◌, Option, some, ok, err, u32_mod, arith, ◌∷◌, ◌++◌, [],
  true,
}
use my_polkadot_orcale.Ocw.Types.{Config, unsigned_tx, deposit_event}
use my_polkadot_orcale.Ocw.Unsigned.{submit_price_unsigned}
use my_polkadot_orcale.Ocw.Offchain.{
  raw, nothing, Retrieved, block, undecodable, missing, MutateResult, written,
  value_function_failed, concurrent_modification, type_for_block, next_send,
  ocw_do_choose_transaction_type, Env,
}
use my_polkadot_orcale.Ocw.Senders.{
  fetch_price, check_not_early, submit_or, submit, ocw_do_fetch_price_and_send_raw_unsigned,
}

type_for_block-ne-raw : (n : ℕ) → type_for_block n ≢ raw
unfolding type_for_block
type_for_block-ne-raw n e = ground arith

module _ {L : Type 0} (c : Config L) where
  -- `mutate` sets only what its closure gave for the value `v` that it found.
  abbrev pub IsMutate : ((Retrieved → Option ℕ) → MutateResult) → Retrieved → Type 0
  IsMutate mutate v = (f : Retrieved → Option ℕ) (n : ℕ) → mutate f ≡ written n → f v ≡ some n

  next_send-written :
      (v : Retrieved) (n m : ℕ)
      → next_send c n v ≡ some m
      → (m ≡ n)
        × ((last : ℕ)
            → v ≡ block last
            → last + c.grace_period < u32_mod
            → n < last + c.grace_period
            → ⊥)
  unfolding next_send
  next_send-written (block last) n m h = (ground arith, (λ last' at small early. ground arith))
  next_send-written undecodable n m h = (ground arith, (λ last' at small early. cc))
  next_send-written missing n m h = (ground arith, (λ last' at small early. cc))

  -- The worker never chooses a raw transaction; within the grace period after its last sending it
  -- chooses nothing; and what it chooses otherwise depends on the current block alone.
  pub ocw_do_choose_transaction_type_lem :
      (mutate : (Retrieved → Option ℕ) → MutateResult) (v : Retrieved) (n : ℕ)
      → IsMutate mutate v
      → (ocw_do_choose_transaction_type c mutate n ≢ raw)
        × ((last : ℕ)
            → v ≡ block last
            → last + c.grace_period < u32_mod
            → n < last + c.grace_period
            → ocw_do_choose_transaction_type c mutate n ≡ nothing)
        × (ocw_do_choose_transaction_type c mutate n ≢ nothing
            → ocw_do_choose_transaction_type c mutate n ≡ type_for_block n)
  unfolding ocw_do_choose_transaction_type next_send
  ocw_do_choose_transaction_type_lem mutate v n law = go (mutate (next_send c n)) refl
    where
      go :
          (r : MutateResult)
          → mutate (next_send c n) ≡ r
          → (ocw_do_choose_transaction_type c mutate n ≢ raw)
            × ((last : ℕ)
                → v ≡ block last
                → last + c.grace_period < u32_mod
                → n < last + c.grace_period
                → ocw_do_choose_transaction_type c mutate n ≡ nothing)
            × (ocw_do_choose_transaction_type c mutate n ≢ nothing
                → ocw_do_choose_transaction_type c mutate n ≡ type_for_block n)
      go value_function_failed e = (
        (λ h. ground (arith, e)),
        (λ last at small early. ground (arith, e)),
        (λ h. ground (arith, e)),
      )
      go concurrent_modification e = (
        (λ h. ground (arith, e)),
        (λ last at small early. ground (arith, e)),
        (λ h. ground (arith, e)),
      )
      go (written m) e =
          let (same, late) = next_send-written v n m (law (next_send c n) m e) in
          let kind : ocw_do_choose_transaction_type c mutate n ≡ type_for_block n =
            rw e (rw same refl) in
          (
            (λ h. type_for_block-ne-raw n (sym kind ∙ h)),
            (λ last at small early. absurd (late last at small early)),
            λ h. kind,
          )

  -- Before the block from which the next unsigned price may come, the worker does not touch the
  -- network: its attempt fails and changes nothing. From that block on, with a price and a pool that
  -- takes the call, exactly that call is submitted.
  pub raw_unsigned_lem :
      (n : ℕ) (e : Env c)
      → (n < e.chain.next_unsigned_at
          → ocw_do_fetch_price_and_send_raw_unsigned c n e
            ≡ (err "Too early to send unsigned transaction", e))
        × ((p : ℕ) (e' : Env c)
            → e.chain.next_unsigned_at ≤ n
            → fetch_price c e ≡ (ok p, e')
            → e'.accepts (submit_price_unsigned n p) ≡ true
            → ocw_do_fetch_price_and_send_raw_unsigned c n e ≡ (
              ok tt,
              record e' {
                submitted = e'.submitted ++ submit_price_unsigned n p ∷ [];
                chain = deposit_event (unsigned_tx n) e'.chain;
              },
            ))
  unfolding ocw_do_fetch_price_and_send_raw_unsigned check_not_early submit_or submit
  raw_unsigned_lem n e = ((λ h. ground arith), (λ p e' late got taken. ground arith))
