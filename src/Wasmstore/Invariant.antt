-- ===== src/Wasmstore/Invariant.antt =====
-- The invariant of the wasmstore storage: every stored byte string and every
-- script's key is within its bound, and results
-- belong to finished jobs of the queue.
use my_polkadot_orcale.Prelude.{
  Bytes, ◌≡◌, ◌≤◌, refl, Option, none, some, length, arith, Bool-cases, lookup, insert, inl, inr,
  nat_eq, nat_beq, pair_eq, pair_beq, pair_beq_iff, bytes_eq, bytes_beq, bytes_beq_iff,
  lookup-insert,
}
use my_polkadot_orcale.Model.{Hash, Public, JobState, idling, pending, processing, finish}
use my_polkadot_orcale.Wasmstore.Types.{Config, State, ScriptDetail, OcwJob, SignedScriptResult}
use my_polkadot_orcale.Wasmstore.Calls.{advance_job, next_state}
use my_polkadot_orcale.Wasmstore.Jobs.{Keeps, rank}

pub finish_of_rank : (j : JobState) → 3 ≤ rank j → j ≡ finish
finish_of_rank idling h = absurd (omega arith)
finish_of_rank pending h = absurd (omega arith)
finish_of_rank processing h = absurd (omega arith)
finish_of_rank finish h = refl

module _ (c : Config) where
  pub record ScriptFits (d : ScriptDetail) : Type 0 where
    pub code : length d.wasm_code ≤ c.max_script_size
    pub abi : length d.wasm_abi ≤ c.max_script_size
    pub name : length d.name ≤ c.max_string_size

  pub record JobFits (job : OcwJob) : Type 0 where
    pub code : length job.wasm_code ≤ c.max_script_size
    pub abi : length job.wasm_abi ≤ c.max_script_size
    pub name : length job.script_name ≤ c.max_string_size

  abbrev pub ScriptsFit : State → Type 0
  ScriptsFit s =
      (key : Bytes) (d : ScriptDetail)
      → lookup key s.script_storage ≡ some d
      → ScriptFits d × (length key ≤ c.max_script_key_len)

  abbrev pub JobsFit : State → Type 0
  JobsFit s = (key : Hash) (job : OcwJob) → lookup key s.job_queue ≡ some job → JobFits job

  abbrev pub ResultsFit : State → Type 0
  ResultsFit s =
      (key : Hash × Public) (r : SignedScriptResult)
      → lookup key s.script_result ≡ some r
      → length r.result_data ≤ c.max_result_size

  abbrev pub ResultsFinished : State → Type 0
  ResultsFinished s =
      (key : Hash) (pk : Public) (r : SignedScriptResult)
      → lookup (key, pk) s.script_result ≡ some r
      → (job : OcwJob) × (lookup key s.job_queue ≡ some job) × (job.state ≡ finish)

  pub record IsValid (s : State) : Type 0 where
    pub scripts_fit : ScriptsFit s
    pub jobs_fit : JobsFit s
    pub results_fit : ResultsFit s
    pub results_finished : ResultsFinished s

  pub ScriptsFit-insert :
      (s t : State) (k : Bytes) (new : ScriptDetail)
      → t.script_storage ≡ insert k new s.script_storage
      → ScriptFits new
      → length k ≤ c.max_script_key_len
      → ScriptsFit s
      → ScriptsFit t
  ScriptsFit-insert s t k new e fits key_fits h key d = rw e (elim (Bool-cases (bytes_beq k key)) [
    | inl same ↦ λ found. (
      ground (arith, lookup-insert k key new s.script_storage),
      ground (arith, bytes_beq_iff k key),
    )
    | inr other ↦ λ found. h key d (ground (arith, lookup-insert k key new s.script_storage))
  ])

  pub JobsFit-insert :
      (s t : State) (k : Hash) (new : OcwJob)
      → t.job_queue ≡ insert k new s.job_queue
      → JobFits new
      → JobsFit s
      → JobsFit t
  JobsFit-insert s t k new e fits h key d = rw e (elim (Bool-cases (nat_beq k key)) [
    | inl same ↦ λ found. ground (arith, lookup-insert k key new s.job_queue)
    | inr other ↦ λ found. h key d (ground (arith, lookup-insert k key new s.job_queue))
  ])

  pub advance-JobsFit :
      (s : State) (k : Hash) → JobsFit s → JobsFit (advance_job k (lookup k s.job_queue) s)
  advance-JobsFit s k h = go (lookup k s.job_queue) refl
    where
      go : (found : Option OcwJob) → lookup k s.job_queue ≡ found → JobsFit (advance_job k found s)
      go none e = h
      go (some j) e =
          let new : OcwJob = record j { state = next_state j.state } in
          let fits = h k j e in
          JobsFit-insert s (advance_job k (some j) s) k new refl
            (record { code = fits.code; abi = fits.abi; name = fits.name }) h

  pub ResultsFit-insert :
      (s t : State) (k : Hash × Public) (new : SignedScriptResult)
      → t.script_result ≡ insert k new s.script_result
      → length new.result_data ≤ c.max_result_size
      → ResultsFit s
      → ResultsFit t
  ResultsFit-insert s t k new e fits h key r = rw e (elim (Bool-cases (pair_beq k key)) [
    | inl same ↦ λ found. ground (arith, lookup-insert k key new s.script_result)
    | inr other ↦ λ found. h key r (ground (arith, lookup-insert k key new s.script_result))
  ])

  -- Results stay with finished jobs, since a finished job stays finished.
  pub kept_finished :
      (s t : State)
      → Keeps s t
      → t.script_result ≡ s.script_result
      → ResultsFinished s
      → ResultsFinished t
  kept_finished s t keep same h key pk r = rw same λ found.
      let (job, there, done) = h key pk r found in
      let (job', there', p) = keep key job there in
      (job', there', finish_of_rank job'.state (ground (arith, p.no_step_back)))

  pub ResultsFinished-insert :
      (s t : State) (k : Hash) (pk : Public) (new : SignedScriptResult) (job : OcwJob)
      → t.script_result ≡ insert (k, pk) new s.script_result
      → t.job_queue ≡ s.job_queue
      → lookup k s.job_queue ≡ some job
      → job.state ≡ finish
      → ResultsFinished s
      → ResultsFinished t
  ResultsFinished-insert s t k pk new job e q there done h key pk' r =
      rw (e, q)
        (elim (Bool-cases (pair_beq (k, pk) (key, pk'))) [
          | inl same ↦ λ found. (job, ground (arith, pair_beq_iff (k, pk) (key, pk')), done)
          | inr other ↦ λ found.
              h key pk' r (ground (arith, lookup-insert (k, pk) (key, pk') new s.script_result))
        ])
