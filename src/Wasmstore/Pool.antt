-- ===== src/Wasmstore/Pool.antt =====
-- Which unsigned transactions the wasmstore pallet lets into the pool.
use my_polkadot_orcale.Prelude.{
  ℕ, ◌≡◌, ◌≢◌, ◌≤◌, ◌<◌, refl, some, [], arith, true, Option-cases, inl, inr, codes,
}
use my_polkadot_orcale.Model.{Hash}
use my_polkadot_orcale.Frame.{valid, invalid, ValidTransaction, future, bad_proof}
use my_polkadot_orcale.Wasmstore.Types.{Config, State, Call}
use my_polkadot_orcale.Wasmstore.Unsigned.{validate_unsiged_transaction, validate_unsigned}

module _ (c : Config) where
  -- The block and the key that an unsigned call names; a result names its key by bytes.
  abbrev pub Names : Call → ℕ → Hash → Type 0
  Names (Call.change_job_state n k) m j = (n ≡ m) × (k ≡ j)
  Names (Call.submit_result_unsiged n raw value pk t) m j = (n ≡ m) × (c.decode_hash raw ≡ some j)
  Names _ m j = ⊥

  -- The check of block and key, on every branch.
  pub validate_unsiged_transaction_lem :
      (s : State) (n : ℕ) (k : Hash)
      → (s.block_number < n → validate_unsiged_transaction c s n k ≡ invalid future)
        × (n ≤ s.block_number → k ≡ 0 → validate_unsiged_transaction c s n k ≡ invalid bad_proof)
        × (n ≤ s.block_number
            → k ≢ 0
            → (v : ValidTransaction) × (validate_unsiged_transaction c s n k ≡ valid v)
              × (v.priority ≡ c.unsigned_priority)
              × (v.provides ≡ []))
  unfolding validate_unsiged_transaction
  validate_unsiged_transaction_lem s n k = (
    (λ h. ground arith),
    (λ h e. ground arith),
    λ h e. (
      record {
        prefix = codes "WasmstoreJobWorker";
        priority = c.unsigned_priority;
        provides = [];
        longevity = 5;
        propagate = true;
      },
      ground arith,
      refl,
      refl,
    ),
  )

  -- A transaction is let in only for one of the two unsigned calls, for a block that is no later
  -- than the current one and a key that is not zero; and it provides no tag, so nothing tells the
  -- pool that two transactions for one job are the same.
  pub validate_unsigned-valid :
      (s : State) (call' : Call) (v : ValidTransaction)
      → validate_unsigned c s call' ≡ some (valid v)
      → (v.provides ≡ [])
        × ((n : ℕ) × (k : Hash) × Names call' n k × (n ≤ s.block_number) × (k ≢ 0))
  unfolding validate_unsigned
  validate_unsigned-valid s (Call.change_job_state n k) v h =
      (ground arith, (n, k, (refl, refl), ground arith, ground arith))
  validate_unsigned-valid s (Call.submit_result_unsiged n raw value pk t) v h =
      elim (Option-cases (c.decode_hash raw)) [
        | inl e ↦ absurd (ground arith)
        | inr (k, e) ↦ (ground arith, (n, k, (refl, e), ground arith, ground arith))
      ]
  validate_unsigned-valid s (Call.upload_wasm name typ code abi) v h = cc
  validate_unsigned-valid s (Call.request_script_execution name params) v h = cc
  validate_unsigned-valid s Call.get_collators_lts v h = cc
