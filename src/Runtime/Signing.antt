-- ===== src/Runtime/Signing.antt =====
-- Signed transactions of the offchain workers (`create_transaction` of runtime/src/configs/mod.rs,
-- written there twice, for the ocw pallet and for the wasmstore pallet).
use my_polkadot_orcale.Prelude.{
  ℕ, ◌-◌, ◌≡◌, refl, Bytes, Bool, true, Option, none, some, arith, Option-cases, inl, inr,
}
use mathlib.Core.Option.{some-injective}
use my_polkadot_orcale.Model.{AccountId, Public}

-- `SignedExtra`, the members with a value of their own: the era is mortal, for a period that ends
-- some blocks after the current one.
pub record SignedExtra : Type 0 where
  pub era_period : ℕ
  pub era_current : ℕ
  pub nonce : ℕ
  pub tip : ℕ
  pub check_metadata_hash : Bool

pub record Transaction (Call Signature : Type 0) : Type 0 where
  pub call : Call
  pub address : AccountId
  pub signature : Signature
  pub extra : SignedExtra

-- The payload of a call with its extra data, encoded, if it can be made, and the keys that sign.
pub record Signing (Call Signature : Type 0) : Type 0 where
  pub block_hash_count : ℕ
  pub block_number : ℕ
  pub new_payload : Call → SignedExtra → Option Bytes
  pub sign : Bytes → Public → Option Signature

module _ {Call Signature : Type 0} (s : Signing Call Signature) where
  abbrev pub extra_of : ℕ → SignedExtra
  extra_of nonce = record {
    era_period = s.block_hash_count;
    era_current = s.block_number - 1;
    nonce = nonce;
    tip = 0;
    check_metadata_hash = true;
  }

  abbrev pub transaction_of : Call → AccountId → ℕ → Signature → Transaction Call Signature
  transaction_of call account nonce signature = record {
    call = call;
    address = account;
    signature = signature;
    extra = extra_of nonce;
  }

  unfoldable pub create_transaction :
      Call → Public → AccountId → ℕ → Option (Transaction Call Signature)
  create_transaction call public account nonce = elim (s.new_payload call (extra_of nonce)) [
    | none ↦ none
    | some payload ↦ elim (s.sign payload public) [
      | none ↦ none
      | some signature ↦ some (transaction_of call account nonce signature)
    ]
  ]

  -- The second copy, for the wasmstore pallet.
  abbrev pub create_wasmstore_transaction :
      Call → Public → AccountId → ℕ → Option (Transaction Call Signature)
  create_wasmstore_transaction = create_transaction

  -- A transaction that is made carries the call, the account and the nonce that were asked for, is
  -- signed over exactly the call and the extra data that it carries, and is mortal from the block
  -- before the current one.
  pub create_transaction-signs :
      (call : Call) (public : Public) (account : AccountId) (nonce : ℕ)
      (tx : Transaction Call Signature)
      → create_transaction call public account nonce ≡ some tx
      → (payload : Bytes) × (s.new_payload tx.call tx.extra ≡ some payload)
        × (s.sign payload public ≡ some tx.signature)
        × (tx ≡ transaction_of call account nonce tx.signature)
  unfolding create_transaction
  create_transaction-signs call public account nonce tx h =
      elim (Option-cases (s.new_payload call (extra_of nonce))) [
        | inl e ↦ absurd (ground (arith, h))
        | inr (payload, e) ↦ elim (Option-cases (s.sign payload public)) [
          | inl f ↦ absurd (ground (arith, h))
          | inr (signature, f) ↦
              let is : transaction_of call account nonce signature ≡ tx =
                some-injective _ _ (rw (create_transaction, e, f) at h) in
              rw (← is) (payload, e, f, refl)
        ]
      ]
