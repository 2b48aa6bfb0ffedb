-- ===== src/Wasmstore/Upload/Effect.antt =====
-- What an upload may change in the storage (pallets/wasmstore-pallet/src/lib.rs).
use my_polkadot_orcale.Prelude.{
  Bytes, ◌≡◌, ◌≤◌, ◌⊎◌, ok-cases, length, arith, ok, Option-cases, inl, inr, bytes_eq, insert, ap,
}
use my_polkadot_orcale.Model.{Origin}
use my_polkadot_orcale.Wasmstore.Types.{Config, State, ScriptType, ScriptDetail}
use my_polkadot_orcale.Wasmstore.Atomic.{upload_wasm-atomic}
use my_polkadot_orcale.Wasmstore.Calls.{upload_wasm}
use my_polkadot_orcale.Wasmstore.Upload.{fits_when_ok, detail, key_of, upload_wasm-final}

module _ (c : Config) where
  -- An upload that was taken: a script within its bounds.
  pub record Published (s t : State) : Type 0 where
    pub key : Bytes
    pub detail : ScriptDetail
    pub code_fits : length detail.wasm_code ≤ c.max_script_size
    pub abi_fits : length detail.wasm_abi ≤ c.max_script_size
    pub name_fits : length detail.name ≤ c.max_string_size
    pub key_fits : length key ≤ c.max_script_key_len
    pub scripts : t.script_storage ≡ insert key detail s.script_storage

  module _ (o : Origin) (name : Bytes) (typ : ScriptType) (code abi : Bytes) (s : State) where
    published :
        (upload_wasm c o name typ code abi s).0 ≡ ok tt
        → Published s (upload_wasm c o name typ code abi s).1
    published h =
        let fits = fits_when_ok c o name typ code abi s h in
        elim (Option-cases (c.ensure_signed o)) [
          | inl unsigned ↦ absurd (fits.0 unsigned)
          | inr (who, signed) ↦ record {
            key = key_of c typ name;
            detail = detail c o who name typ code abi s;
            code_fits = fits.1.0;
            abi_fits = fits.1.1;
            name_fits = fits.1.2;
            key_fits = fits.1.3;
            scripts =
                ap (λ (t : State). t.script_storage)
                  (upload_wasm-final c o who name typ code abi s signed h);
          }
        ]

    -- Whatever the upload and its outcome: nothing changed, or one script within bounds was stored.
    pub upload_effect :
        ((upload_wasm c o name typ code abi s).1.script_storage ≡ s.script_storage)
        ⊎ Published s (upload_wasm c o name typ code abi s).1
    upload_effect = elim (ok-cases (upload_wasm c o name typ code abi s).0) [
      | inl h ↦ inr (published h)
      | inr h ↦
          inl (ap (λ (t : State). t.script_storage) (upload_wasm-atomic c o name typ code abi s h))
    ]

    pub upload_others :
        ((upload_wasm c o name typ code abi s).1.job_queue ≡ s.job_queue)
        × ((upload_wasm c o name typ code abi s).1.script_result ≡ s.script_result)
    unfolding upload_wasm
    upload_others = (ground arith, ground arith)
