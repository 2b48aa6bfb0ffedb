-- ===== src/Wasmstore/Upload.antt =====
-- What `upload_wasm` accepts, and what it writes.
pub mod Effect
use my_polkadot_orcale.Prelude.{
  Bytes, ◌≡◌, ◌≢◌, ◌≤◌, ◌↔◌, ◌⊎◌, ok-cases, refl, none, some, length, arith, ok, Option-cases,
  lookup, inl, inr, bytes_eq, bytes_beq_iff, lookup-insert, lookup-insert_self, insert, ap, ◌∙◌, [],
  ◌∷◌, ◌++◌,
}
use my_polkadot_orcale.Model.{Origin, AccountId}
use my_polkadot_orcale.Wasmstore.Types.{Config, State, ScriptType, ScriptDetail, script_upload}
use my_polkadot_orcale.Wasmstore.Atomic.{upload_wasm-atomic}
use my_polkadot_orcale.Wasmstore.Calls.{upload_wasm, full_name}

module _ (c : Config) where
  -- The key under which a script of that name is stored.
  abbrev pub key_of : ScriptType → Bytes → Bytes
  key_of typ name = c.debug_encode (full_name typ name)

  -- Everything is within its bound.
  abbrev pub IsFitting : ScriptType → Bytes → Bytes → Bytes → Type 0
  IsFitting typ name code abi =
      (length code ≤ c.max_script_size)
      × (length abi ≤ c.max_script_size)
      × (length (full_name typ name) ≤ c.max_string_size)
      × (length (key_of typ name) ≤ c.max_script_key_len)

  -- No script of that name has that very code.
  abbrev pub IsNew : ScriptType → Bytes → Bytes → State → Type 0
  IsNew typ name code s =
      (d : ScriptDetail)
      → lookup (key_of typ name) s.script_storage ≡ some d
      → ¬ ((d.name ≡ full_name typ name) × (d.wasm_code ≡ code))

  module _ (o : Origin) (name : Bytes) (typ : ScriptType) (code abi : Bytes) (s : State) where
    fits_when_ok :
        (upload_wasm c o name typ code abi s).0 ≡ ok tt
        → (c.ensure_signed o ≢ none) × IsFitting typ name code abi
    unfolding upload_wasm
    fits_when_ok h =
        let full = full_name typ name in
        let fit_code = c.try_from_lem c.max_script_size code in
        let fit_abi = c.try_from_lem c.max_script_size abi in
        let fit_name = c.try_from_lem c.max_string_size full in
        let fit_key = c.try_from_lem c.max_script_key_len (c.debug_encode full) in
        (ground arith, ground (arith, fit_code, fit_abi, fit_name, fit_key))

    IsNew-when_ok : (upload_wasm c o name typ code abi s).0 ≡ ok tt → IsNew typ name code s
    unfolding upload_wasm
    IsNew-when_ok h d e same =
        let full = full_name typ name in
        ground (
          arith,
          c.try_from_lem c.max_script_size code,
          c.try_from_lem c.max_string_size full,
          c.try_from_lem c.max_script_key_len (c.debug_encode full),
          bytes_beq_iff full d.name,
          bytes_beq_iff code d.wasm_code,
        )

    ok_when_new :
        c.ensure_signed o ≢ none
        → IsFitting typ name code abi
        → IsNew typ name code s
        → (upload_wasm c o name typ code abi s).0 ≡ ok tt
    unfolding upload_wasm
    ok_when_new signed fits new =
        let full = full_name typ name in
        let fit_code = c.try_from_lem c.max_script_size code in
        let fit_abi = c.try_from_lem c.max_script_size abi in
        let fit_name = c.try_from_lem c.max_string_size full in
        let fit_key = c.try_from_lem c.max_script_key_len (c.debug_encode full) in
        elim (Option-cases (lookup (key_of typ name) s.script_storage)) [
          | inl e ↦ ground (arith, fit_code, fit_abi, fit_name, fit_key)
          | inr (d, e) ↦ ground (
            arith,
            fit_code,
            fit_abi,
            fit_name,
            fit_key,
            bytes_beq_iff full d.name,
            bytes_beq_iff code d.wasm_code,
            new d e,
          )
        ]

    -- `upload_wasm` succeeds exactly for a signed origin, a script within all bounds, and a name
    -- that does not hold the same code already.
    pub upload_wasm-ok_iff :
        ((upload_wasm c o name typ code abi s).0 ≡ ok tt)
        ↔ ((c.ensure_signed o ≢ none) × IsFitting typ name code abi × IsNew typ name code s)
    upload_wasm-ok_iff = (
      (λ h. ((fits_when_ok h).0, (fits_when_ok h).1, IsNew-when_ok h)),
      λ h. ok_when_new h.0 h.1 h.2,
    )

  -- What a successful upload leaves behind: the script under its key, published by the caller, all
  -- other scripts, the jobs and the results as they were.
  pub record Uploaded (who : AccountId) (name : Bytes) (typ : ScriptType) (code abi : Bytes)
      (s s' : State) : Type 0 where
    pub stored :
        lookup (key_of typ name) s'.script_storage
        ≡ some (record {
          publisher = who;
          block_number = s.block_number;
          wasm_code = code;
          wasm_abi = abi;
          hash = c.hash code;
          name = full_name typ name;
          typ = typ;
          ref_count = 0;
        })
    pub others :
        (key : Bytes)
        → key ≢ key_of typ name
        → lookup key s'.script_storage ≡ lookup key s.script_storage
    pub same_jobs : s'.job_queue ≡ s.job_queue
    pub same_results : s'.script_result ≡ s.script_result

  module _ (o : Origin) (who : AccountId) (name : Bytes) (typ : ScriptType) (code abi : Bytes)
      (s : State) where
    abbrev pub detail : ScriptDetail
    detail = record {
      publisher = who;
      block_number = s.block_number;
      wasm_code = code;
      wasm_abi = abi;
      hash = c.hash code;
      name = full_name typ name;
      typ = typ;
      ref_count = 0;
    }

    abbrev final : State
    final = record s {
      script_storage = insert (key_of typ name) detail s.script_storage;
      events =
          s.events
          ++ script_upload who s.block_number (length code) (full_name typ name) (c.hash code) ∷ [];
    }

    upload_wasm-final :
        c.ensure_signed o ≡ some who
        → (upload_wasm c o name typ code abi s).0 ≡ ok tt
        → (upload_wasm c o name typ code abi s).1 ≡ final
    unfolding upload_wasm
    upload_wasm-final signed h =
        let full = full_name typ name in
        let fit_code = c.try_from_lem c.max_script_size code in
        let fit_abi = c.try_from_lem c.max_script_size abi in
        let fit_name = c.try_from_lem c.max_string_size full in
        let fit_key = c.try_from_lem c.max_script_key_len (c.debug_encode full) in
        ground (arith, fit_code, fit_abi, fit_name, fit_key)

    -- A successful upload by `who` stores the script and touches nothing else.
    pub upload_wasm-Uploaded :
        c.ensure_signed o ≡ some who
        → (upload_wasm c o name typ code abi s).0 ≡ ok tt
        → Uploaded who name typ code abi s (upload_wasm c o name typ code abi s).1
    upload_wasm-Uploaded signed h =
        let key = key_of typ name in
        rw (upload_wasm-final signed h) (record {
          stored = lookup-insert_self key detail s.script_storage;
          others = λ j ne.
              ground (arith, lookup-insert key j detail s.script_storage, bytes_beq_iff key j);
          same_jobs = refl;
          same_results = refl;
        })

    -- Whoever published a script, any signed account replaces it by other code of the same name,
    -- and is its publisher from then on.
    pub upload_wasm-takes_over :
        (d : ScriptDetail)
        → c.ensure_signed o ≡ some who
        → IsFitting typ name code abi
        → lookup (key_of typ name) s.script_storage ≡ some d
        → d.wasm_code ≢ code
        → ((upload_wasm c o name typ code abi s).0 ≡ ok tt)
          × (lookup (key_of typ name) (upload_wasm c o name typ code abi s).1.script_storage
              ≡ some detail)
    upload_wasm-takes_over d signed fits e ne =
        let same_detail : (d' : ScriptDetail)
            → lookup (key_of typ name) s.script_storage ≡ some d'
            → d ≡ d' =
          λ d' e'. cc in
        let done : (upload_wasm c o name typ code abi s).0 ≡ ok tt =
          (upload_wasm-ok_iff o name typ code abi s).1 (
            (λ none'. cc),
            fits,
            λ d' e' same. ne (ap (λ (t : ScriptDetail). t.wasm_code) (same_detail d' e') ∙ same.1),
          ) in
        (done, (upload_wasm-Uploaded signed done).stored)
