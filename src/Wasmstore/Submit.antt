-- ===== src/Wasmstore/Submit.antt =====
-- What `submit_result_unsiged` accepts, and what it writes.
use my_polkadot_orcale.Prelude.{
  ℕ, Bytes, Outcome, ◌<◌, ◌≡◌, ◌≢◌, ◌≤◌, ◌⊎◌, refl, Option, none, some, length, arith, ok, err,
  panic, Option-cases, Bool-cases, true, lookup, insert, inl, inr, nat_eq, pair_eq,
}
use my_polkadot_orcale.Model.{Origin, Hash, Public, JobState, finish}
use my_polkadot_orcale.Frame.{DispatchError, pallet_error}
use my_polkadot_orcale.Wasmstore.Types.{
  Config, State, Error, OcwJob, SignedScriptResult, size_too_big, invalid_operation,
}
use my_polkadot_orcale.Wasmstore.Calls.{submit_result_unsiged, is_finish}

pub is_finish_iff : (j : JobState) → is_finish j ≡ true → j ≡ finish
is_finish_iff j h = ground arith

module _ (c : Config) (o : Origin) (n : ℕ) (raw value : Bytes) (pk : Public) (t : ℕ)
    (s : State) where
  abbrev submission : Outcome (DispatchError Error) (Unit {0}) × State
  submission = submit_result_unsiged c o n raw value pk t s

  -- The state once the result is stored.
  abbrev stored : Hash → State
  stored key = record s {
    script_result = insert (key, pk) (record { result_data = value; ext_time = t }) s.script_result;
  }

  -- What a submission does for the job that its key names, on every branch: dropped with no job,
  -- refused before the job is finished, stored within the bound, and beyond the bound refused the
  -- first time and a panic from then on.
  abbrev pub Submitted : Hash → Option OcwJob → Option SignedScriptResult → Type 0
  Submitted key none old = submission ≡ (ok tt, s)
  Submitted key (some job) old =
      (job.state ≢ finish → submission ≡ (err (pallet_error invalid_operation), s))
      × (job.state ≡ finish → length value ≤ c.max_result_size → submission ≡ (ok tt, stored key))
      × (job.state ≡ finish
          → c.max_result_size < length value
          → submission ≡ (elim old [ none ↦ err (pallet_error size_too_big) | some r ↦ panic ], s))

  Submitted-for :
      (key : Hash) (job : Option OcwJob) (old : Option SignedScriptResult)
      → c.ensure_none o ≡ true
      → c.decode_hash raw ≡ some key
      → lookup key s.job_queue ≡ job
      → lookup (key, pk) s.script_result ≡ old
      → Submitted key job old
  unfolding submit_result_unsiged
  Submitted-for key none old e f g h = ground arith
  Submitted-for key (some job) none e f g h = (
    (λ st. ground arith),
    (λ st fits. ground (arith, c.try_from_lem c.max_result_size value)),
    λ st long. ground (arith, c.try_from_lem c.max_result_size value),
  )
  Submitted-for key (some job) (some r) e f g h = (
    (λ st. ground arith),
    (λ st fits. ground (arith, c.try_from_lem c.max_result_size value)),
    λ st long. ground (arith, c.try_from_lem c.max_result_size value),
  )

  -- The behaviour of an unsigned submission whose key decodes.
  pub submit_result-Submitted :
      (key : Hash)
      → c.ensure_none o ≡ true
      → c.decode_hash raw ≡ some key
      → Submitted key (lookup key s.job_queue) (lookup (key, pk) s.script_result)
  submit_result-Submitted key e f =
      Submitted-for key (lookup key s.job_queue) (lookup (key, pk) s.script_result) e f refl refl

  -- A submission that was taken.
  pub record Accepted : Type 0 where
    pub key : Hash
    pub job : OcwJob
    pub there : lookup key s.job_queue ≡ some job
    pub finished : job.state ≡ finish
    pub fits : length value ≤ c.max_result_size
    pub results : submission.1.script_result ≡ (stored key).script_result

  -- Whatever the submission and its outcome: the results are as they were, or the result of a
  -- finished job was stored.
  pub submit_effect : (submission.1.script_result ≡ s.script_result) ⊎ Accepted
  unfolding submit_result_unsiged
  submit_effect = elim (Option-cases (c.decode_hash raw)) [
    | inl e ↦ inl (ground arith)
    | inr (key, e) ↦ elim (Option-cases (lookup key s.job_queue)) [
      | inl f ↦ inl (ground arith)
      | inr (job, f) ↦ elim (Bool-cases (is_finish job.state)) [
        | inr g ↦ inl (ground arith)
        | inl g ↦ elim (Option-cases (c.try_from c.max_result_size value)) [
          | inl h ↦ inl (ground arith)
          | inr (v, h) ↦ elim (Bool-cases (c.ensure_none o)) [
            | inr i ↦ inl (ground arith)
            | inl i ↦ inr (record {
              key = key;
              job = job;
              there = f;
              finished = is_finish_iff job.state g;
              fits = ground (arith, c.try_from_lem c.max_result_size value);
              results = ground (arith, c.try_from_lem c.max_result_size value);
            })
          ]
        ]
      ]
    ]
  ]

  pub submit_others :
      (submission.1.script_storage ≡ s.script_storage) × (submission.1.job_queue ≡ s.job_queue)
  unfolding submit_result_unsiged
  submit_others = (ground arith, ground arith)
