-- ===== src/Wasmstore/Preserved.antt =====
-- Every call of the wasmstore pallet keeps the invariant of its storage, and so does every history.
use my_polkadot_orcale.Prelude.{
  ℕ, Bytes, ◌≡◌, Option, arith, Bool-cases, inl, inr, List, [], nat_eq,
}
use my_polkadot_orcale.Model.{Origin, Hash, AccountId}
use my_polkadot_orcale.Wasmstore.Types.{Config, State, Call, ScriptType}
use my_polkadot_orcale.Wasmstore.Calls.{
  upload_wasm, request_script_execution, change_job_state, submit_result_unsiged, get_collators_lts,
  dispatch,
}
use my_polkadot_orcale.Wasmstore.Upload.Effect.{upload_effect, upload_others}
use my_polkadot_orcale.Wasmstore.Submit.{submit_effect, submit_others}
use my_polkadot_orcale.Wasmstore.Request.{Queued, request_effect, request_others}
use my_polkadot_orcale.Wasmstore.Jobs.{dispatch-Keeps}
use my_polkadot_orcale.Wasmstore.Chain.{called, next_block, Reach, here, next}
use my_polkadot_orcale.Wasmstore.Invariant.{
  JobFits, ScriptsFit, JobsFit, ResultsFit, IsValid, ScriptsFit-insert, JobsFit-insert,
  advance-JobsFit, ResultsFit-insert, kept_finished, ResultsFinished-insert,
}

module _ (c : Config) where
  scripts_same :
      (s t : State) → t.script_storage ≡ s.script_storage → ScriptsFit c s → ScriptsFit c t
  scripts_same s t e h key d = rw e (h key d)

  jobs_same : (s t : State) → t.job_queue ≡ s.job_queue → JobsFit c s → JobsFit c t
  jobs_same s t e h key job = rw e (h key job)

  results_same : (s t : State) → t.script_result ≡ s.script_result → ResultsFit c s → ResultsFit c t
  results_same s t e h key r = rw e (h key r)

  -- What no call but an upload and a submission touches.
  change_others :
      (o : Origin) (n : ℕ) (key : Hash) (s : State)
      → ((change_job_state c o n key s).1.script_storage ≡ s.script_storage)
        × ((change_job_state c o n key s).1.script_result ≡ s.script_result)
  unfolding change_job_state
  change_others o n key s = (ground arith, ground arith)

  pub collators_others :
      (o : Origin) (s : State)
      → ((get_collators_lts c o s).1.script_storage ≡ s.script_storage)
        × ((get_collators_lts c o s).1.script_result ≡ s.script_result)
        × ((get_collators_lts c o s).1.job_queue ≡ s.job_queue)
  unfolding get_collators_lts
  collators_others o s = (ground arith, ground arith, ground arith)

  module _ (o : Origin) (s : State) where
    upload-IsValid :
        (name : Bytes) (typ : ScriptType) (code abi : Bytes)
        → IsValid c s
        → IsValid c (upload_wasm c o name typ code abi s).1
    unfolding dispatch
    upload-IsValid name typ code abi v =
        let t = (upload_wasm c o name typ code abi s).1 in
        let others = upload_others c o name typ code abi s in
        record {
          scripts_fit = elim (upload_effect c o name typ code abi s) [
            | inl same ↦ scripts_same s t same v.scripts_fit
            | inr p ↦
                ScriptsFit-insert c s t p.key p.detail p.scripts
                  (record { code = p.code_fits; abi = p.abi_fits; name = p.name_fits }) p.key_fits
                  v.scripts_fit
          ];
          jobs_fit = jobs_same s t others.0 v.jobs_fit;
          results_fit = results_same s t others.1 v.results_fit;
          results_finished =
              kept_finished c s t (dispatch-Keeps c (Call.upload_wasm name typ code abi) o s)
                others.1 v.results_finished;
        }

    request-IsValid :
        (name : Bytes) (params : Option Bytes)
        → IsValid c s
        → IsValid c (request_script_execution c o name params s).1
    unfolding dispatch
    request-IsValid name params v =
        let t = (request_script_execution c o name params s).1 in
        let others = request_others c o name params s in
        let fits : (q : Queued c s t) → JobFits c q.job = λ q.
          let script_fits = (v.scripts_fit q.script_key q.script q.stored).0 in
          record {
            code = rw q.same_code script_fits.code;
            abi = rw q.same_abi script_fits.abi;
            name = q.name_fits;
          } in
        record {
          scripts_fit = scripts_same s t others.0 v.scripts_fit;
          jobs_fit = elim (request_effect c o name params s) [
            | inl same ↦ jobs_same s t same v.jobs_fit
            | inr q ↦ JobsFit-insert c s t q.key q.job q.queue (fits q) v.jobs_fit
          ];
          results_fit = results_same s t others.1 v.results_fit;
          results_finished =
              kept_finished c s t (dispatch-Keeps c (Call.request_script_execution name params) o s)
                others.1 v.results_finished;
        }

    change-IsValid : (n : ℕ) (key : Hash) → IsValid c s → IsValid c (change_job_state c o n key s).1
    unfolding dispatch change_job_state
    change-IsValid n key v =
        let t = (change_job_state c o n key s).1 in
        let others = change_others o n key s in
        record {
          scripts_fit = scripts_same s t others.0 v.scripts_fit;
          jobs_fit = elim (Bool-cases (c.ensure_none o)) [
            | inl e ↦ rw e (advance-JobsFit c s key v.jobs_fit)
            | inr e ↦ rw e v.jobs_fit
          ];
          results_fit = results_same s t others.1 v.results_fit;
          results_finished =
              kept_finished c s t (dispatch-Keeps c (Call.change_job_state n key) o s) others.1
                v.results_finished;
        }

    submit-IsValid :
        (n : ℕ) (key value : Bytes) (pk time : ℕ)
        → IsValid c s
        → IsValid c (submit_result_unsiged c o n key value pk time s).1
    unfolding dispatch
    submit-IsValid n key value pk time v =
        let t = (submit_result_unsiged c o n key value pk time s).1 in
        let others = submit_others c o n key value pk time s in
        record {
          scripts_fit = scripts_same s t others.0 v.scripts_fit;
          jobs_fit = jobs_same s t others.1 v.jobs_fit;
          results_fit = elim (submit_effect c o n key value pk time s) [
            | inl same ↦ results_same s t same v.results_fit
            | inr a ↦ ResultsFit-insert c s t (a.key, pk) _ a.results a.fits v.results_fit
          ];
          results_finished = elim (submit_effect c o n key value pk time s) [
            | inl same ↦
                kept_finished c s t
                  (dispatch-Keeps c (Call.submit_result_unsiged n key value pk time) o s) same
                  v.results_finished
            | inr a ↦
                ResultsFinished-insert c s t a.key pk _ a.job a.results others.1 a.there a.finished
                  v.results_finished
          ];
        }

    -- Whatever the call, its origin and its outcome, the invariant still holds.
    pub dispatch-IsValid : (call : Call) → IsValid c s → IsValid c (dispatch c call o s).1
    unfolding dispatch
    dispatch-IsValid (Call.upload_wasm name typ code abi) v = upload-IsValid name typ code abi v
    dispatch-IsValid (Call.request_script_execution name params) v = request-IsValid name params v
    dispatch-IsValid (Call.change_job_state n key) v = change-IsValid n key v
    dispatch-IsValid (Call.submit_result_unsiged n key value pk time) v =
        submit-IsValid n key value pk time v
    dispatch-IsValid Call.get_collators_lts v =
        let others = collators_others o s in
        let t = (get_collators_lts c o s).1 in
        record {
          scripts_fit = scripts_same s t others.0 v.scripts_fit;
          jobs_fit = jobs_same s t others.2 v.jobs_fit;
          results_fit = results_same s t others.1 v.results_fit;
          results_finished =
              kept_finished c s t (dispatch-Keeps c Call.get_collators_lts o s) others.1
                v.results_finished;
        }

  -- The pallet's storage at the start of the chain.
  abbrev pub genesis : List AccountId → State
  genesis collators = record {
    script_storage = [];
    script_result = [];
    job_queue = [];
    block_number = 0;
    events = [];
    invulnerables = collators;
  }

  genesis-IsValid : (collators : List AccountId) → IsValid c (genesis collators)
  genesis-IsValid collators = record {
    scripts_fit = λ key d e. cc;
    jobs_fit = λ key job e. cc;
    results_fit = λ key r e. cc;
    results_finished = λ key pk r e. cc;
  }

  Reach-IsValid : {s t : State} → Reach c s t → IsValid c s → IsValid c t
  Reach-IsValid here v = v
  Reach-IsValid (next r (called u call o)) v = dispatch-IsValid o u call (Reach-IsValid r v)
  Reach-IsValid (next r (next_block u)) v =
      let w = Reach-IsValid r v in
      record {
        scripts_fit = w.scripts_fit;
        jobs_fit = w.jobs_fit;
        results_fit = w.results_fit;
        results_finished = w.results_finished;
      }

  -- In every state that the chain can reach from genesis by calls of the pallet and new blocks, the
  -- code, the interface and the name of each script, its key, those of each job and each result are
  -- within their bounds, and each result belongs to a job of the queue that is finished.
  pub history-IsValid :
      (collators : List AccountId) (s : State) → Reach c (genesis collators) s → IsValid c s
  history-IsValid collators s r = Reach-IsValid r (genesis-IsValid collators)
