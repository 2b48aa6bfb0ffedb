-- ===== src/Pipeline/Scripts.antt =====
-- The way of a job whose script runs as `abi_reader` runs it: `process_wasm`
-- (node/src/scripts_exec_manager.rs) on the runtime of script-executor/src/runtime.rs.
use my_polkadot_orcale.Prelude.{
  ℕ, ◌+◌, ◌%◌, Bytes, ◌≡◌, ◌≤◌, refl, Option, none, some, true, ok, err, panic, Outcome, List, [],
  ◌∷◌, ◌++◌, length, take, drop, lookup, bytes_eq, nat_eq, pair_eq, codes,
}
use my_polkadot_orcale.Model.{Public, Hash, Origin, RequestPayload, pending}
use my_polkadot_orcale.Frame.{Frame}
use my_polkadot_orcale.Wasmstore.Types.{Config, State, Call, OcwJob}
use my_polkadot_orcale.Wasmstore.Calls.{change_job_state, dispatch}
use my_polkadot_orcale.Wasmstore.Chain.{Reach}
use my_polkadot_orcale.Wasmstore.Worker.{Worker, init_value, offchain_worker}
use my_polkadot_orcale.Wasmstore.Handoff.{FirstActive}
use my_polkadot_orcale.Wasmstore.Run.{IsReady}
use my_polkadot_orcale.Node.Executor.{JobResult, run_job, process_wasm}
use my_polkadot_orcale.Script.Types.{Root, Param}
use my_polkadot_orcale.Script.Registry.{fill_registry}
use my_polkadot_orcale.Script.Memory.{Memory, Scale}
use my_polkadot_orcale.Script.Scalars.{NumericWidth}
use my_polkadot_orcale.Script.Https.{HttpClient}
use my_polkadot_orcale.Script.Runner.{Wasmtime, RunError, abi_reader}
use my_polkadot_orcale.Script.Runner.Runs.{Served, numeric_run}
use my_polkadot_orcale.Pipeline.{key, payload}
use my_polkadot_orcale.Pipeline.Delivery.{returns, delivered}

-- `abi_reader(..).await.expect(..)`: the task of a script that fails panics.
abbrev pub expect_result : Outcome RunError Bytes → Option Bytes
expect_result (ok res) = some res
expect_result (err e) = none
expect_result panic = none

-- The bytes of a memory from a place on.
abbrev pub output_at : ℕ → ℕ → Memory → Bytes
output_at ptr width m = take width (drop ptr m.memory_data)

module _ {Module Instance : Type 0} (m : Wasmtime Module Instance) (http : HttpClient) (sc : Scale)
    (to_utf8 : List ℕ → Bytes) (from_utf16 : List ℕ → Option Bytes) (from_str : Bytes → Option Root)
    (from_utf8 : Bytes → Option Bytes) where
  abbrev pub script_runtime : Bytes → Bytes → Option Bytes
  script_runtime wasm_abi wasm_code =
      expect_result (abi_reader m http sc to_utf8 from_utf16 from_str wasm_abi wasm_code)

  run_job-answers :
      (f : Frame) (elapsed : ℕ) (p : RequestPayload) (abi out : Bytes)
      → from_utf8 p.content_abi ≡ some abi
      → abi_reader m http sc to_utf8 from_utf16 from_str abi p.job_content ≡ ok out
      → run_job f script_runtime from_utf8 elapsed p
        ≡ some (record { job_id = p.job_id; result = out; ext_time = elapsed % 1000 })
  unfolding run_job process_wasm
  run_job-answers f elapsed p abi out text answered =
      rw (run_job, text) (rw (process_wasm, answered) refl)

  module _ (c : Config) (w : Worker) (id : Hash) (job : OcwJob) where
    -- The result of a script whose output is `out`, of so many milliseconds.
    abbrev pub answer : ℕ → Bytes → JobResult
    answer elapsed out = record { job_id = key c w id job; result = out; ext_time = elapsed % 1000 }

    -- A queued pending job that comes first, with both lists at `init` and an open pool, and whose
    -- script is served, has an interface with numeric output fields only, and leaves its output
    -- within its memory; and a later chain, by any history of calls and blocks in which two unsigned
    -- state calls are for the job. A run of the worker on that chain, if the job still comes first,
    -- submits the bytes of that output, with the milliseconds of the last second that the script
    -- took, and the submitted call, from an unsigned origin and with an output within the bound, puts
    -- them into the storage of the chain.
    pub numeric_output_delivered :
        (o o' o'' : Origin) (elapsed n n' : ℕ) (pk : Public) (abi json : Bytes) (ptr width : ℕ)
        (after' : Memory) (root : Root) (fields : List Param) (s₁ s₂ t : State) (done : OcwJob)
        → from_utf8 job.wasm_abi ≡ some abi
        → from_str abi ≡ some root
        → Served m http sc to_utf8 from_utf16 job.wasm_code json ptr after'
        → lookup (codes "Output") (fill_registry root).classes_schema ≡ some fields
        → NumericWidth fields width
        → ptr + width ≤ length after'.memory_data
        → IsReady c w init_value init_value
        → FirstActive c w id job
        → lookup id w.chain.job_queue ≡ some job
        → job.state ≡ pending
        → ((call : Call) → w.accepts call ≡ true)
        → (c.ensure_none o ≡ true) × (c.ensure_none o' ≡ true) × (c.ensure_none o'' ≡ true)
        → Reach c w.chain s₁
        → Reach c (change_job_state c o n id s₁).1 s₂
        → Reach c (change_job_state c o' n' id s₂).1 t
        → length (output_at ptr width after') ≤ c.max_result_size
        → lookup id t.job_queue ≡ some done
        → FirstActive c
            (returns c w id job script_runtime from_utf8 t pk
              (answer elapsed (output_at ptr width after')))
            id
            done
        → let out = output_at ptr width after' in
          let w' = returns c w id job script_runtime from_utf8 t pk (answer elapsed out) in
          let call =
            Call.submit_result_unsiged t.block_number (key c w id job) out pk (elapsed % 1000) in
          ((offchain_worker c w').0 ≡ ok tt)
          × ((offchain_worker c w').1.submitted ≡ w.submitted ++ call ∷ [])
          × (lookup (id, pk) (dispatch c call o'' t).1.script_result
              ≡ some (record { result_data = out; ext_time = elapsed % 1000 }))
    numeric_output_delivered o o' o'' elapsed n n' pk abi json ptr width after' root fields s₁ s₂ t
          done text parsed served schema numeric within ready first queued st takes unsigned r₁ r₂
          r₃ fits found again =
        let out = output_at ptr width after' in
        delivered c w id job script_runtime from_utf8 o o' o'' elapsed n n' pk (answer elapsed out)
          s₁ s₂ t done ready first queued st takes
          (run_job-answers c.frame elapsed (payload c w id job) abi out text (
            numeric_run m http sc to_utf8 from_utf16 from_str abi job.wasm_code json ptr width
              after' root fields parsed served schema numeric within))
          unsigned r₁ r₂ r₃ fits found again
