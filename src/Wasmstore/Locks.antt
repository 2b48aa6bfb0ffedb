-- ===== src/Wasmstore/Locks.antt =====
-- The helpers of the wasmstore pallet that keep a lock, a script or a key in the offchain storage
-- (pallets/wasmstore-pallet/src/lib.rs). Nothing in the pallet calls them.
use my_polkadot_orcale.Prelude.{
  ℕ, ◌+◌, ◌-◌, ◌%◌, ◌≡◌, Bytes, Bool, true, false, none, some, [], ◌++◌, codes, StoreMap, lookup,
  insert, remove, lookup-insert, lookup-remove, bytes_eq, bytes_beq_iff, u32_mod, Outcome, ok, err,
  arith,
}
use my_polkadot_orcale.Model.{Hash}
use my_polkadot_orcale.Wasmstore.Worker.{
  WasmStoreErr, is_still_running, value_already_exist, compare_and_set,
}

pub record OcwState : Type 0 where
  pub is_active : Bool
  pub start_at_block : ℕ
  pub parent_hash : Hash
  pub start_at_time : ℕ
  pub script : Bytes

abbrev pub local_lock : Bytes
local_lock = codes "wasmstore::ocw::do_heavy_computation_lock"

-- `block_number - 1u32.into()`, which wraps below zero.
abbrev pub parent_block : ℕ → ℕ
parent_block block_number = (block_number + u32_mod - 1) % u32_mod

abbrev pub Db : Type 0
Db = StoreMap Bytes Bytes

-- Parameters: `encode` of the state, the hashes of blocks, the clock in milliseconds, and the texts
-- that `format!` makes.
module _ (encode : OcwState → Bytes) (block_hash : ℕ → Hash) (current_time : ℕ)
    (lock_text : Bytes → ℕ → ℕ → Bytes) (key_text : ℕ → Bytes → Bytes) where
  abbrev pub heavy_state : ℕ → OcwState
  heavy_state block_number = record {
    is_active = true;
    start_at_block = block_number;
    parent_hash = block_hash (parent_block block_number);
    start_at_time = current_time;
    script = [];
  }

  -- The loop over the hashes writes nothing; its sum is only logged.
  abbrev pub computed : Db → Db
  computed db = remove local_lock db

  unfoldable pub simulate_heavy_computation : ℕ → Db → Outcome WasmStoreErr (Unit {0}) × Db
  simulate_heavy_computation block_number db = elim (lookup local_lock db) [
    | none ↦ (ok tt, computed (insert local_lock (encode (heavy_state block_number)) db))
    | some _ ↦ (err is_still_running, db)
  ]

  abbrev pub script_state : Bytes → ℕ → OcwState
  script_state script block_number = record {
    is_active = false;
    start_at_block = block_number;
    parent_hash = block_hash (parent_block block_number);
    start_at_time = current_time;
    script = script;
  }

  unfoldable pub add_wasm_script_to_storage :
      Bytes → Bytes → ℕ → Db → Outcome WasmStoreErr (Unit {0}) × Db
  add_wasm_script_to_storage name script block_number db =
      let lock = lock_text name block_number current_time in
      elim (lookup lock db) [
        | none ↦ (ok tt, insert lock (encode (script_state script block_number)) db)
        | some _ ↦ (err value_already_exist, db)
      ]

  unfoldable pub add_to_key_list : Bytes → ℕ → ℕ → Db → Db
  add_to_key_list key index key_len db = elim (lookup (codes "wasmstore::keylist") db) [
    | none ↦ db
    | some val ↦ compare_and_set (codes "wasmstore::keylist") val (val ++ key_text key_len key) db
  ]

  -- A run takes the lock and gives it back: with the lock free it succeeds and leaves every key as
  -- it was, and with the lock taken it is refused and changes nothing.
  pub simulate_heavy_computation_lem :
      (block_number : ℕ) (db : Db) (value key : Bytes)
      → (lookup local_lock db ≡ none
          → ((simulate_heavy_computation block_number db).0 ≡ ok tt)
            × (lookup key (simulate_heavy_computation block_number db).1 ≡ lookup key db))
        × (lookup local_lock db ≡ some value
            → simulate_heavy_computation block_number db ≡ (err is_still_running, db))
  unfolding simulate_heavy_computation
  simulate_heavy_computation_lem block_number db value key =
      let state = encode (heavy_state block_number) in
      (
        (λ h. (
          ground arith,
          ground (
            arith,
            h,
            lookup-remove local_lock key (insert local_lock state db),
            lookup-insert local_lock key state db,
            bytes_beq_iff local_lock key,
          ),
        )),
        λ h. ground arith,
      )
