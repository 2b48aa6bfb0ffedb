-- ===== src/Wasmstore/Jobs.antt =====
-- The life of a job: `change_job_state` moves it from pending to processing to finished, no call
-- moves it back, and no call takes a job out of the queue.
use my_polkadot_orcale.Prelude.{
  ℕ, Bytes, ◌≡◌, ◌≤◌, refl, Option, none, some, arith, lookup, inl, inr, nat_eq, nat_beq_iff,
  lookup-insert, bytes_eq, insert, ◌∙◌, Bool-cases, nat_beq,
}
use my_polkadot_orcale.Model.{Origin, Hash, JobState, idling, pending, processing, finish}
use my_polkadot_orcale.Wasmstore.Types.{Config, State, Call, OcwJob}
use my_polkadot_orcale.Wasmstore.Request.{request_effect}
use my_polkadot_orcale.Wasmstore.Calls.{
  upload_wasm, request_script_execution, change_job_state, submit_result_unsiged, get_collators_lts,
  dispatch, next_state, advance_job,
}

-- How far a job has come.
abbrev pub rank : JobState → ℕ
rank idling = 0
rank pending = 1
rank processing = 2
rank finish = 3

-- A job after a call: the same request, and no step back.
pub record Continues (before after' : OcwJob) : Type 0 where
  pub same_caller : after'.caller ≡ before.caller
  pub same_name : after'.script_name ≡ before.script_name
  pub same_code : after'.wasm_code ≡ before.wasm_code
  pub same_abi : after'.wasm_abi ≡ before.wasm_abi
  pub no_step_back : rank before.state ≤ rank after'.state

pub Continues-refl : (job : OcwJob) → Continues job job
Continues-refl job = ground arith

pub Continues-trans : {i j k : OcwJob} → Continues i j → Continues j k → Continues i k
Continues-trans p q = record {
  same_caller = q.same_caller ∙ p.same_caller;
  same_name = q.same_name ∙ p.same_name;
  same_code = q.same_code ∙ p.same_code;
  same_abi = q.same_abi ∙ p.same_abi;
  no_step_back = omega (arith, p.no_step_back, q.no_step_back);
}

-- The queue after a call holds a continuation of each job that it held before.
abbrev pub Keeps : State → State → Type 0
Keeps s t =
    (key : Hash) (job : OcwJob)
    → lookup key s.job_queue ≡ some job
    → (job' : OcwJob) × (lookup key t.job_queue ≡ some job') × Continues job job'

pub Keeps-trans : (s t u : State) → Keeps s t → Keeps t u → Keeps s u
Keeps-trans s t u first second key job e =
    let (j, ej, p) = first key job e in
    let (k, ek, q) = second key j ej in (k, ek, Continues-trans p q)

Keeps-same : (s t : State) → t.job_queue ≡ s.job_queue → Keeps s t
Keeps-same s t same key job e = (job, ground arith, Continues-refl job)

next_state-rank : (j : JobState) → rank j ≤ rank (next_state j)
next_state-rank j = ground arith

Keeps-insert_new :
    (s t : State) (k : Hash) (new : OcwJob)
    → lookup k s.job_queue ≡ none
    → t.job_queue ≡ insert k new s.job_queue
    → Keeps s t
Keeps-insert_new s t k new fresh e key job old = (
  job,
  rw e (ground (arith, lookup-insert k key new s.job_queue, nat_beq_iff k key)),
  Continues-refl job,
)

advance_job-Keeps : (s : State) (k : Hash) → Keeps s (advance_job k (lookup k s.job_queue) s)
advance_job-Keeps s k = go (lookup k s.job_queue) refl
  where
    go : (found : Option OcwJob) → lookup k s.job_queue ≡ found → Keeps s (advance_job k found s)
    go none e key job old = Keeps-same s s refl key job old
    go (some j) e key job old =
        let new : OcwJob = record j { state = next_state j.state } in
        let law = lookup-insert k key new s.job_queue in
        elim (Bool-cases (nat_beq k key)) [
          | inl same ↦
              (new, ground (arith, law), ground (arith, nat_beq_iff k key, next_state-rank j.state))
          | inr different ↦ (job, ground (arith, law), Continues-refl job)
        ]

module _ (c : Config) where
  request-Keeps :
      (o : Origin) (name : Bytes) (params : Option Bytes) (s : State)
      → Keeps s (request_script_execution c o name params s).1
  request-Keeps o name params s =
      let t = (request_script_execution c o name params s).1 in
      elim (request_effect c o name params s) [
        | inl same ↦ Keeps-same s t same
        | inr q ↦ Keeps-insert_new s t q.key q.job q.fresh q.queue
      ]

  change-Keeps :
      (o : Origin) (n : ℕ) (key : Hash) (s : State) → Keeps s (change_job_state c o n key s).1
  unfolding change_job_state
  change-Keeps o n key s = elim (Bool-cases (c.ensure_none o)) [
    | inl e ↦ rw e (advance_job-Keeps s key)
    | inr e ↦ rw e (Keeps-same s s refl)
  ]

  -- Whatever the call, its origin and its outcome: each job of the queue is still there, for the
  -- same request, and is no earlier in its life.
  pub dispatch-Keeps : (call : Call) (o : Origin) (s : State) → Keeps s (dispatch c call o s).1
  unfolding dispatch
  dispatch-Keeps (Call.upload_wasm name typ code abi) o s =
      Keeps-same s (upload_wasm c o name typ code abi s).1 (unfold upload_wasm in ground arith)
  dispatch-Keeps (Call.request_script_execution name params) o s = request-Keeps o name params s
  dispatch-Keeps (Call.change_job_state n key) o s = change-Keeps o n key s
  dispatch-Keeps (Call.submit_result_unsiged n key value pk t) o s =
      Keeps-same s (submit_result_unsiged c o n key value pk t s).1
        (unfold submit_result_unsiged in ground arith)
  dispatch-Keeps Call.get_collators_lts o s =
      Keeps-same s (get_collators_lts c o s).1 (unfold get_collators_lts in ground arith)
