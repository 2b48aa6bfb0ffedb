-- ===== src/Wasmstore/Request.antt =====
-- What `request_script_execution` accepts, and what it writes.
use my_polkadot_orcale.Prelude.{
  Bytes, ◌≡◌, ◌≤◌, ◌⊎◌, refl, Option, none, some, length, arith, ok, err, Option-cases, lookup, inl,
  inr, nat_eq, bytes_eq, insert, [], ◌∷◌, ◌++◌,
}
use my_polkadot_orcale.Model.{Origin, AccountId, Hash, pending}
use my_polkadot_orcale.Frame.{pallet_error}
use my_polkadot_orcale.Wasmstore.Types.{
  Config, State, ScriptDetail, OcwJob, val_already_exist, no_val_exist, request_execution,
}
use my_polkadot_orcale.Wasmstore.Calls.{request_script_execution, requested_job}

module _ (c : Config) where
  -- The name and its key are within their bounds.
  abbrev pub IsFittingName : Bytes → Type 0
  IsFittingName name =
      (length name ≤ c.max_string_size) × (length (c.debug_encode name) ≤ c.max_script_key_len)

  -- What a request is to queue: a pending job of the caller, with the script's code and interface.
  abbrev pub pending_job : AccountId → Bytes → ScriptDetail → OcwJob
  pending_job who name script = record {
    caller = who;
    script_name = name;
    wasm_code = script.wasm_code;
    wasm_abi = script.wasm_abi;
    state = pending;
  }

  -- The identity of a job: the hash of its caller, its name, its code and its first state.
  abbrev pub job_id_of : AccountId → Bytes → ScriptDetail → Hash
  job_id_of who name script = c.hash (c.encode_job (pending_job who name script))

  module _ (o : Origin) (who : AccountId) (name : Bytes) (params : Option Bytes) (s : State) where
    abbrev pub final : ScriptDetail → State
    final script = record s {
      job_queue = insert (job_id_of who name script) (pending_job who name script) s.job_queue;
      events =
          s.events ++ request_execution (job_id_of who name script) who s.block_number name ∷ [];
    }

    -- What a request does, by what the storage holds: with no script of that name it is refused,
    -- with a job of the same identity, in whatever state, it is refused, and else the job is queued
    -- as pending, for the caller and with the code and the interface of the stored script.
    abbrev pub Requested : Option ScriptDetail → Type 0
    Requested none =
        request_script_execution c o name params s ≡ (err (pallet_error no_val_exist), s)
    Requested (some script) =
        ((job : OcwJob)
          → lookup (job_id_of who name script) s.job_queue ≡ some job
          → request_script_execution c o name params s ≡ (err (pallet_error val_already_exist), s))
        × (lookup (job_id_of who name script) s.job_queue ≡ none
            → request_script_execution c o name params s ≡ (ok tt, final script))

    Requested-by :
        (found : Option ScriptDetail)
        → lookup (c.debug_encode name) s.script_storage ≡ found
        → c.ensure_signed o ≡ some who
        → IsFittingName name
        → Requested found
    unfolding request_script_execution
    Requested-by none e signed fits =
        ground (arith, c.try_from_lem c.max_script_key_len (c.debug_encode name))
    Requested-by (some script) e signed fits =
        let fit_key = c.try_from_lem c.max_script_key_len (c.debug_encode name) in
        let fit_name = c.try_from_lem c.max_string_size name in
        (
          (λ job queued. ground (arith, fit_key, fit_name)),
          (λ fresh. ground (arith, fit_key, fit_name)),
        )

    -- The behaviour of a signed request for a name within bounds, on every branch.
    pub request_script_execution-Requested :
        c.ensure_signed o ≡ some who
        → IsFittingName name
        → Requested (lookup (c.debug_encode name) s.script_storage)
    request_script_execution-Requested =
        Requested-by (lookup (c.debug_encode name) s.script_storage) refl

  -- A request that was taken: a pending job with the stored script's code, under a key that held
  -- no job.
  pub record Queued (s t : State) : Type 0 where
    pub key : Hash
    pub job : OcwJob
    pub script_key : Bytes
    pub script : ScriptDetail
    pub stored : lookup script_key s.script_storage ≡ some script
    pub same_code : job.wasm_code ≡ script.wasm_code
    pub same_abi : job.wasm_abi ≡ script.wasm_abi
    pub name_fits : length job.script_name ≤ c.max_string_size
    pub is_pending : job.state ≡ pending
    pub fresh : lookup key s.job_queue ≡ none
    pub queue : t.job_queue ≡ insert key job s.job_queue

  module _ (o : Origin) (name : Bytes) (params : Option Bytes) (s : State) where
    abbrev after_request : State
    after_request = (request_script_execution c o name params s).1

    effect_of_script :
        (who : AccountId) (name' k : Bytes) (script : ScriptDetail)
        → c.ensure_signed o ≡ some who
        → c.try_from c.max_script_key_len (c.debug_encode name) ≡ some k
        → lookup k s.script_storage ≡ some script
        → c.try_from c.max_string_size name ≡ some name'
        → (after_request.job_queue ≡ s.job_queue) ⊎ Queued s after_request
    unfolding request_script_execution
    effect_of_script who name' k script e f g h =
        let job = requested_job who name' script in
        let id = c.hash (c.encode_job job) in
        elim (Option-cases (lookup id s.job_queue)) [
          | inr (old, there) ↦ inl (ground arith)
          | inl fresh ↦ inr (record {
            key = id;
            job = job;
            script_key = k;
            script = script;
            stored = g;
            same_code = refl;
            same_abi = refl;
            name_fits = ground (arith, c.try_from_lem c.max_string_size name);
            is_pending = refl;
            fresh = fresh;
            queue = ground arith;
          })
        ]

    -- Whatever the request and its outcome: the queue is as it was, or has one new pending job.
    pub request_effect : (after_request.job_queue ≡ s.job_queue) ⊎ Queued s after_request
    unfolding request_script_execution
    request_effect = elim (Option-cases (c.ensure_signed o)) [
      | inl e ↦ inl (ground arith)
      | inr (who, e) ↦ elim (Option-cases (c.try_from c.max_script_key_len (c.debug_encode name))) [
        | inl f ↦ inl (ground arith)
        | inr (k, f) ↦ elim (Option-cases (lookup k s.script_storage)) [
          | inl g ↦ inl (ground arith)
          | inr (script, g) ↦ elim (Option-cases (c.try_from c.max_string_size name)) [
            | inl h ↦ inl (ground arith)
            | inr (name', h) ↦ effect_of_script who name' k script e f g h
          ]
        ]
      ]
    ]

    pub request_others :
        (after_request.script_storage ≡ s.script_storage)
        × (after_request.script_result ≡ s.script_result)
    unfolding request_script_execution
    request_others = (ground arith, ground arith)
