-- ===== src/Ocw/Senders.antt =====
-- The ways in which the ocw pallet's worker sends a fetched price.
use Prim.Native.String.{String}
use my_polkadot_orcale.Prelude.{
  ℕ, Bool, true, false, List, [], ◌∷◌, ◌++◌, ltb, Outcome, ok, err, panic, Exec, return, gets,
  modify, ensure, ◌>>=◌, ◌>>◌, if◌then◌else◌,
}
use my_polkadot_orcale.Model.{Public}
use my_polkadot_orcale.Ocw.Types.{Config, unsigned_tx, deposit_event}
use my_polkadot_orcale.Ocw.Prices.{PricePayload}
use my_polkadot_orcale.Ocw.Unsigned.{
  Call, submit_price_unsigned, submit_price_unsigned_with_signed_payload,
}
use my_polkadot_orcale.Ocw.Offchain.{HttpError, Env, fetch_data}

module _ {L : Type 0} (c : Config L) where
  abbrev pub Task : Type 0 → Type 0
  Task = Exec (Env c) String

  -- `fetch_data(..).map_err(|_| "Failed to fetch price")`
  abbrev pub renamed : Outcome HttpError ℕ → Outcome String ℕ
  renamed (ok price) = ok price
  renamed (err e) = err "Failed to fetch price"
  renamed panic = panic

  unfoldable pub fetch_price : Task ℕ
  fetch_price e = let (r, e') = fetch_data c e in (renamed r, e')

  unfoldable pub check_not_early : ℕ → Task (Unit {0})
  check_not_early block_number e =
      if ltb block_number e.chain.next_unsigned_at
      then (err "Too early to send unsigned transaction", e)
      else (ok tt, e)

  abbrev pub has_account : List Public → Bool
  has_account [] = false
  has_account (a ∷ as') = true

  -- The accounts for which the pool takes the signed price.
  unfoldable pub send_signed : ℕ → List Public → Env c → Env c
  send_signed price [] e = e
  send_signed price (a ∷ rest) e = send_signed price rest (
      if e.accepts_signed a price
      then record e { sent_signed = e.sent_signed ++ (a, price) ∷ [] }
      else e)

  unfoldable pub ocw_do_fetch_price_and_send_signed : Task (Unit {0})
  unfolding fetch_price send_signed
  ocw_do_fetch_price_and_send_signed = do
    accounts ← gets (λ e. e.accounts)
    ensure (has_account accounts)
        "No local accounts available. Consider adding one via `author_insertKey` RPC."
    price ← fetch_price
    modify (send_signed price accounts)

  -- `submit_unsigned_transaction`: whether the pool took the call.
  unfoldable pub submit : Call → Env c → Bool × Env c
  submit call e =
      if e.accepts call
      then (true, record e { submitted = e.submitted ++ call ∷ [] })
      else (false, e)

  unfoldable pub submit_or : Call → String → Task (Unit {0})
  unfolding submit
  submit_or call message e =
      let (taken, e') = submit call e in (if taken then ok tt else err message, e')

  unfoldable pub ocw_do_fetch_price_and_send_raw_unsigned : ℕ → Task (Unit {0})
  unfolding check_not_early fetch_price submit_or
  ocw_do_fetch_price_and_send_raw_unsigned block_number = do
    check_not_early block_number
    price ← fetch_price
    submit_or (submit_price_unsigned block_number price) "Unable to submit unsigned transaction."
    modify (λ e. record e { chain = deposit_event (unsigned_tx block_number) e.chain })

  -- The payload of one account, with its signature.
  abbrev pub signed_call : ℕ → ℕ → Public → Env c → Call
  signed_call block_number price a e =
      let payload : PricePayload = record {
        block_number = block_number;
        price = price;
        public = a;
      } in
      submit_price_unsigned_with_signed_payload payload (e.sign payload)

  abbrev pub send_for_first : ℕ → ℕ → List Public → Task (Unit {0})
  send_for_first block_number price [] e = (err "No local accounts accounts available.", e)
  send_for_first block_number price (a ∷ rest) e =
      submit_or (signed_call block_number price a e) "Unable to submit transaction" e

  unfoldable pub ocw_do_fetch_price_and_send_unsigned_for_any_account : ℕ → Task (Unit {0})
  unfolding check_not_early fetch_price submit_or
  ocw_do_fetch_price_and_send_unsigned_for_any_account block_number = do
    check_not_early block_number
    price ← fetch_price
    accounts ← gets (λ e. e.accounts)
    send_for_first block_number price accounts

  -- All accounts submit; whether every one was taken.
  unfoldable pub send_for_each : ℕ → ℕ → List Public → Env c → Bool × Env c
  unfolding submit
  send_for_each block_number price [] e = (true, e)
  send_for_each block_number price (a ∷ rest) e =
      let (taken, e') = submit (signed_call block_number price a e) e in
      let (others, e'') = send_for_each block_number price rest e' in
      (if taken then others else false, e'')

  unfoldable pub ocw_do_fetch_price_and_send_unsigned_for_all_accounts : ℕ → Task (Unit {0})
  unfolding check_not_early fetch_price send_for_each
  ocw_do_fetch_price_and_send_unsigned_for_all_accounts block_number = do
    check_not_early block_number
    price ← fetch_price
    λ e.
        let (all_taken, e') = send_for_each block_number price e.accounts e in
        (if all_taken then ok tt else err "Unable to submit transaction", e')

  unfoldable pub fetch_data_and_store_hash : ℕ → Task (Unit {0})
  unfolding check_not_early fetch_price
  fetch_data_and_store_hash block_number = do
    check_not_early block_number
    price ← fetch_price
    return tt
