-- ===== src/Wasmstore/Lifecycle.antt =====
-- `change_job_state` in full, and what the life of a job means for requests.
use mathlib.Core.Option
use my_polkadot_orcale.Prelude.{
  ℕ, Bytes, ◌≤◌, ◌≡◌, ◌≢◌, refl, sym, ap, Option, none, some, arith, true, ok, err, lookup, nat_eq,
  nat_beq_iff, bytes_eq, lookup-insert, if◌then◌else◌, ◌==◌, ◌∙◌,
}
use my_polkadot_orcale.Model.{
  Origin, AccountId, Hash, JobState, idling, pending, processing, finish,
}
use my_polkadot_orcale.Frame.{pallet_error}
use my_polkadot_orcale.Wasmstore.Types.{Config, State, OcwJob, ScriptDetail, val_already_exist}
use my_polkadot_orcale.Wasmstore.Calls.{
  change_job_state, request_script_execution, next_state, advance_job,
}
use my_polkadot_orcale.Wasmstore.Request.{
  IsFittingName, job_id_of, request_script_execution-Requested,
}
use mathlib.Core.Option.{some-injective}
use my_polkadot_orcale.Wasmstore.Invariant.{finish_of_rank}
use my_polkadot_orcale.Wasmstore.Jobs.{rank}
use my_polkadot_orcale.Wasmstore.Chain.{Reach, Reach-Keeps}

abbrev advanced : OcwJob → OcwJob
advanced job = record job { state = next_state job.state }

-- A job after a call that moves it on, state by state.
abbrev pub MovedOn : OcwJob → OcwJob → Type 0
MovedOn job after' =
    (job.state ≡ idling → after' ≡ job)
    × (job.state ≡ pending → after' ≡ record job { state = processing })
    × (job.state ≡ processing → after' ≡ record job { state = finish })
    × (job.state ≡ finish → after' ≡ job)

MovedOn-advanced : (job : OcwJob) → MovedOn job (advanced job)
MovedOn-advanced job =
    let moved = λ (st : JobState). record job { state = next_state st } in
    let with_state = λ (st : JobState). record job { state = st } in
    (
      (λ e. ap moved e ∙ ap with_state (sym e)),
      (λ e. ap moved e),
      (λ e. ap moved e),
      λ e. ap moved e ∙ ap with_state (sym e),
    )

rank-MovedOn :
    (i j : OcwJob)
    → MovedOn i j
    → 1 ≤ rank i.state
    → (2 ≤ rank j.state) × (2 ≤ rank i.state → 3 ≤ rank j.state)
rank-MovedOn i j moved low = go i.state refl low
  where
    go :
        (st : JobState)
        → i.state ≡ st
        → 1 ≤ rank st
        → (2 ≤ rank j.state) × (2 ≤ rank i.state → 3 ≤ rank j.state)
    go idling e h = absurd (omega (arith, h))
    go pending e h = rw (moved.1 e, e) (omega arith, λ h. omega (arith, h))
    go processing e h = rw (moved.2 e, e) (omega arith, λ h. omega arith)
    go finish e h = rw (moved.3 e, e) (omega arith, λ h. omega arith)

module _ (c : Config) where
  advance-lookup :
      (s : State) (k j : Hash)
      → lookup j (advance_job k (lookup k s.job_queue) s).job_queue
        ≡ (if k == j then Option.map advanced (lookup k s.job_queue) else lookup j s.job_queue)
  advance-lookup s k j = go (lookup k s.job_queue) refl
    where
      go :
          (found : Option OcwJob)
          → lookup k s.job_queue ≡ found
          → lookup j (advance_job k found s).job_queue
            ≡ (if k == j then Option.map advanced found else lookup j s.job_queue)
      go none e = ground (arith, nat_beq_iff k j)
      go (some job) e = ground (arith, lookup-insert k j (advanced job) s.job_queue)

  changed_queue :
      (o : Origin) (n : ℕ) (k : Hash) (s : State)
      → c.ensure_none o ≡ true
      → ((change_job_state c o n k s).0 ≡ ok tt)
        × ((j : Hash)
            → lookup j (change_job_state c o n k s).1.job_queue ≡ (
                if k == j
                then Option.map advanced (lookup k s.job_queue)
                else lookup j s.job_queue))
        × ((change_job_state c o n k s).1.script_storage ≡ s.script_storage)
        × ((change_job_state c o n k s).1.script_result ≡ s.script_result)
  unfolding change_job_state
  changed_queue o n k s e =
      (ground arith, (λ j. rw e (advance-lookup s k j)), ground arith, ground arith)

  -- An unsigned `change_job_state` succeeds: a pending job of its key is being processed then, one
  -- that was being processed is finished, and an idle or finished one stays as it is; the rest of the
  -- job is unchanged, and so is every other job, every script and every result. With no job of its
  -- key, no job is added.
  pub change_job_state_lem :
      (o : Origin) (n : ℕ) (k : Hash) (s : State)
      → c.ensure_none o ≡ true
      → let t = (change_job_state c o n k s).1 in
        ((change_job_state c o n k s).0 ≡ ok tt)
        × (lookup k s.job_queue ≡ none → lookup k t.job_queue ≡ none)
        × ((job : OcwJob)
            → lookup k s.job_queue ≡ some job
            → (after' : OcwJob) × (lookup k t.job_queue ≡ some after') × MovedOn job after')
        × ((j : Hash) → k ≢ j → lookup j t.job_queue ≡ lookup j s.job_queue)
        × (t.script_storage ≡ s.script_storage)
        × (t.script_result ≡ s.script_result)
  change_job_state_lem o n k s e =
      let changed = changed_queue o n k s e in
      (
        changed.0,
        (λ fresh. ground (arith, changed.1 k, nat_beq_iff k k)),
        (λ job there.
            (advanced job, ground (arith, changed.1 k, nat_beq_iff k k), MovedOn-advanced job)),
        (λ j ne. ground (arith, changed.1 j, nat_beq_iff k j)),
        changed.2,
        changed.3,
      )

  -- Two unsigned calls, by anybody, finish a pending job: no result has to be there.
  pub two_changes_finish :
      (o o' : Origin) (n n' : ℕ) (k : Hash) (s : State) (job : OcwJob)
      → c.ensure_none o ≡ true
      → c.ensure_none o' ≡ true
      → lookup k s.job_queue ≡ some job
      → job.state ≡ pending
      → let t = (change_job_state c o' n' k (change_job_state c o n k s).1).1 in
        (lookup k t.job_queue ≡ some (record job { state = finish }))
        × (t.script_result ≡ s.script_result)
  two_changes_finish o o' n n' k s job e e' found st =
      let s₁ = (change_job_state c o n k s).1 in
      let first = changed_queue o n k s e in
      let second = changed_queue o' n' k s₁ e' in
      (ground (arith, first.1 k, second.1 k, nat_beq_iff k k), second.3 ∙ first.3)

  -- A job that was pending in a history with two unsigned calls for it is finished.
  pub history_finishes :
      (s s₁ s₂ t : State) (o o' : Origin) (n n' : ℕ) (k : Hash) (job after' : OcwJob)
      → c.ensure_none o ≡ true
      → c.ensure_none o' ≡ true
      → lookup k s.job_queue ≡ some job
      → job.state ≡ pending
      → Reach c s s₁
      → Reach c (change_job_state c o n k s₁).1 s₂
      → Reach c (change_job_state c o' n' k s₂).1 t
      → lookup k t.job_queue ≡ some after'
      → after'.state ≡ finish
  history_finishes s s₁ s₂ t o o' n n' k job after' e e' there st r₁ r₂ r₃ found =
      let (j₁, at₁, up₁) = Reach-Keeps c r₁ k job there in
      let (j₂, at₂, moved) = (change_job_state_lem o n k s₁ e).2 j₁ at₁ in
      let (j₃, at₃, up₃) = Reach-Keeps c r₂ k j₂ at₂ in
      let (j₄, at₄, moved') = (change_job_state_lem o' n' k s₂ e').2 j₃ at₃ in
      let (j₅, at₅, up₅) = Reach-Keeps c r₃ k j₄ at₄ in
      let one : 1 ≤ rank j₁.state = ground (arith, up₁.no_step_back, st) in
      let two : 2 ≤ rank j₃.state =
        omega (arith, up₃.no_step_back, (rank-MovedOn j₁ j₂ moved one).0) in
      let three : 3 ≤ rank j₅.state =
        omega
          (arith, up₅.no_step_back, two, (rank-MovedOn j₃ j₄ moved' (omega (arith, two))).1 two) in
      let same : j₅ ≡ after' = some-injective _ _ (sym at₅ ∙ found) in
      rw (← same) (finish_of_rank j₅.state three)

  -- Once a job is queued, in every later state of the chain the same caller asking for the same
  -- script, while it has the same code, the same interface and a name within bounds, is refused.
  pub repeated_request_refused :
      (s t : State) (o : Origin) (who : AccountId) (name : Bytes) (params : Option Bytes)
      (script : ScriptDetail) (job : OcwJob)
      → lookup (job_id_of c who name script) s.job_queue ≡ some job
      → Reach c s t
      → c.ensure_signed o ≡ some who
      → IsFittingName c name
      → lookup (c.debug_encode name) t.script_storage ≡ some script
      → request_script_execution c o name params t ≡ (err (pallet_error val_already_exist), t)
  repeated_request_refused s t o who name params script job queued r signed fits stored =
      let (job', there, _) = Reach-Keeps c r (job_id_of c who name script) job queued in
      let by = request_script_execution-Requested c o who name params t signed fits in
      (rw stored at by).0 job' there
