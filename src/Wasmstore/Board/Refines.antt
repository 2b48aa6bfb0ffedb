-- ===== src/Wasmstore/Board/Refines.antt =====
-- The storage and the calls of the wasmstore pallet refine the board.
use mathlib.Core.Path.{fun_ext}
use my_polkadot_orcale.Prelude.{
  ℕ, Bytes, ◌≡◌, refl, Option, none, some, lookup, insert, lookup-insert, StoreMap, Eq, inl, inr,
  Bool-cases, ap, bytes_eq, nat_eq, pair_eq, ◌∙◌,
}
use my_polkadot_orcale.Model.{Origin, Hash, Public, JobState, idling, pending, processing, finish}
use my_polkadot_orcale.Wasmstore.Types.{
  Config, State, Call, ScriptDetail, OcwJob, SignedScriptResult,
}
use my_polkadot_orcale.Wasmstore.Calls.{
  upload_wasm, request_script_execution, change_job_state, submit_result_unsiged, get_collators_lts,
  dispatch, next_state, advance_job,
}
use my_polkadot_orcale.Wasmstore.Upload.Effect.{upload_effect, upload_others}
use my_polkadot_orcale.Wasmstore.Submit.{submit_effect, submit_others}
use my_polkadot_orcale.Wasmstore.Request.{request_effect, request_others}
use my_polkadot_orcale.Wasmstore.Chain.{called, next_block, Reach, here, next}
use my_polkadot_orcale.Wasmstore.Preserved.{collators_others}
use my_polkadot_orcale.Wasmstore.Board.{Board, board, update, Follows, Acts, Course}

abbrev on_board :
    StoreMap Bytes ScriptDetail
    → StoreMap Hash OcwJob
    → StoreMap (Hash × Public) SignedScriptResult
    → Board
on_board scripts jobs results = record {
  scripts = λ key. lookup key scripts;
  jobs = λ key. lookup key jobs;
  results = λ key. lookup key results;
}

-- A storage with these three maps.
board-maps :
    (t : State) (scripts : StoreMap Bytes ScriptDetail) (jobs : StoreMap Hash OcwJob)
    (results : StoreMap (Hash × Public) SignedScriptResult)
    → t.script_storage ≡ scripts
    → t.job_queue ≡ jobs
    → t.script_result ≡ results
    → board t ≡ on_board scripts jobs results
board-maps t scripts jobs results e f g = rw (← e, ← f, ← g) refl

lookup-update :
    {K V : Type 0} ⦃e : Eq K⦄ (k : K) (v : V) (m : StoreMap K V)
    → (λ j. lookup j (insert k v m)) ≡ update k v (λ j. lookup j m)
lookup-update k v m = fun_ext λ j. lookup-insert k j v m

next_state-Follows : (j : JobState) → Follows j (next_state j)
next_state-Follows idling = Follows.over idling
next_state-Follows pending = Follows.taken
next_state-Follows processing = Follows.done
next_state-Follows finish = Follows.over finish

module _ (c : Config) where
  upload-Acts :
      (o : Origin) (name : Bytes) (typ : _) (code abi : Bytes) (s : State)
      → Acts c (board s) (board (upload_wasm c o name typ code abi s).1)
  upload-Acts o name typ code abi s =
      let t = (upload_wasm c o name typ code abi s).1 in
      let others = upload_others c o name typ code abi s in
      elim (upload_effect c o name typ code abi s) [
        | inl same ↦ Acts.stays (board-maps t _ _ _ same others.0 others.1)
        | inr p ↦ Acts.publishes p.key p.detail p.code_fits p.abi_fits p.name_fits (
            board-maps t _ _ _ p.scripts others.0 others.1
            ∙ ap (λ (m : Bytes → Option ScriptDetail). record (board s) { scripts = m })
                (lookup-update p.key p.detail s.script_storage))
      ]

  request-Acts :
      (o : Origin) (name : Bytes) (params : Option Bytes) (s : State)
      → Acts c (board s) (board (request_script_execution c o name params s).1)
  request-Acts o name params s =
      let t = (request_script_execution c o name params s).1 in
      let others = request_others c o name params s in
      elim (request_effect c o name params s) [
        | inl same ↦ Acts.stays (board-maps t _ _ _ others.0 same others.1)
        | inr q ↦
            Acts.queues q.key q.job q.script_key q.script q.fresh q.stored q.same_code q.same_abi
              q.is_pending
              (board-maps t _ _ _ others.0 q.queue others.1
                ∙ ap (λ (m : Hash → Option OcwJob). record (board s) { jobs = m })
                    (lookup-update q.key q.job s.job_queue))
      ]

  advance-Acts :
      (s : State) (key : Hash)
      → Acts c (board s) (board (advance_job key (lookup key s.job_queue) s))
  advance-Acts s key = go (lookup key s.job_queue) refl
    where
      go :
          (found : Option OcwJob)
          → lookup key s.job_queue ≡ found
          → Acts c (board s) (board (advance_job key found s))
      go none e = Acts.stays refl
      go (some job) e =
          Acts.advances key job (next_state job.state) e (next_state-Follows job.state) (
            ap (λ (m : Hash → Option OcwJob). record (board s) { jobs = m })
              (lookup-update key (record job { state = next_state job.state }) s.job_queue))

  change-Acts :
      (o : Origin) (n : ℕ) (key : Hash) (s : State)
      → Acts c (board s) (board (change_job_state c o n key s).1)
  unfolding change_job_state
  change-Acts o n key s = elim (Bool-cases (c.ensure_none o)) [
    | inl e ↦ rw e (advance-Acts s key)
    | inr e ↦ rw e (Acts.stays refl)
  ]

  submit-Acts :
      (o : Origin) (n : ℕ) (key value : Bytes) (pk : Public) (time : ℕ) (s : State)
      → Acts c (board s) (board (submit_result_unsiged c o n key value pk time s).1)
  submit-Acts o n key value pk time s =
      let t = (submit_result_unsiged c o n key value pk time s).1 in
      let others = submit_others c o n key value pk time s in
      elim (submit_effect c o n key value pk time s) [
        | inl same ↦ Acts.stays (board-maps t _ _ _ others.0 others.1 same)
        | inr a ↦
            let r : SignedScriptResult = record { result_data = value; ext_time = time } in
            Acts.answers a.key pk a.job r a.there a.finished a.fits (
              board-maps t _ _ _ others.0 others.1 a.results
              ∙ ap
                  (λ (m : Hash × Public → Option SignedScriptResult). record (board s) {
                    results = m;
                  })
                  (lookup-update (a.key, pk) r s.script_result))
      ]

  -- Every call of the pallet, from any origin and with any outcome, is one act on the board or none.
  pub dispatch-Acts :
      (call : Call) (o : Origin) (s : State) → Acts c (board s) (board (dispatch c call o s).1)
  unfolding dispatch
  dispatch-Acts (Call.upload_wasm name typ code abi) o s = upload-Acts o name typ code abi s
  dispatch-Acts (Call.request_script_execution name params) o s = request-Acts o name params s
  dispatch-Acts (Call.change_job_state n key) o s = change-Acts o n key s
  dispatch-Acts (Call.submit_result_unsiged n key value pk time) o s =
      submit-Acts o n key value pk time s
  dispatch-Acts Call.get_collators_lts o s =
      let others = collators_others c o s in
      Acts.stays (board-maps (get_collators_lts c o s).1 _ _ _ others.0 others.2 others.1)

  -- Every history of the chain is a course of the board, step by step.
  pub Reach-Course : {s t : State} → Reach c s t → Course c (board s) (board t)
  Reach-Course here = Course.rest
  Reach-Course (next r (called u call o)) = Course.act (Reach-Course r) (dispatch-Acts call o u)
  Reach-Course (next r (next_block u)) = Course.act (Reach-Course r) (Acts.stays refl)
