-- ===== src/Wasmstore/Run/Total.antt =====
-- Runs of the wasmstore worker that end without a panic.
use my_polkadot_orcale.Prelude.{
  Bytes, ◌≡◌, refl, arith, ok, List, [], ◌∷◌, ◌++◌, true, Bool, bytes_eq, inl, inr, ap, ◌∙◌,
  HaveLength, flatten,
}
use my_polkadot_orcale.Model.{Hash}
use my_polkadot_orcale.Wasmstore.Types.{Config, Call}
use my_polkadot_orcale.Wasmstore.Worker.{
  Worker, Command, init_value, ocw_do_change_job_state, submit_unsigned, ocw_do_handling_result,
  ocw_do_handling_job, run_command, handle_results, after_reading, request_of,
}
use my_polkadot_orcale.Wasmstore.Handoff.{ocw_do_handling_result-append}
use my_polkadot_orcale.Wasmstore.Submission.{submit_results-Submits}
use my_polkadot_orcale.Wasmstore.Run.{handle_pending_lem}
use my_polkadot_orcale.Wasmstore.Run.Effect.{handle_jobs-Handled}

module _ (c : Config) (keys : List Bytes) (sized : HaveLength 32 keys) where
  abbrev listed : Bytes
  listed = init_value ++ flatten keys

  -- The pool takes every call.
  abbrev pub IsOpen : Worker → Type 0
  IsOpen w = (call : Call) → w.accepts call ≡ true

  handle_results-ok :
      (w : Worker) → IsOpen w → (handle_results c (ocw_do_handling_result listed) w).0 ≡ ok tt
  handle_results-ok w takes = by_keys keys sized
    where
      by_keys :
          (ks : List Bytes)
          → HaveLength 32 ks
          → (handle_results c (ocw_do_handling_result (init_value ++ flatten ks)) w).0 ≡ ok tt
      by_keys [] h = unfold ocw_do_handling_result in unfold flatten in refl
      by_keys (k ∷ ks) h =
          rw (ocw_do_handling_result-append k ks h) (submit_results-Submits c (k ∷ ks) w takes).0

  stored-accepts :
      (job_key key_list encoded : Bytes) (w : Worker)
      → (run_command c job_key (Command.request_data key_list encoded) w).accepts ≡ w.accepts
  unfolding run_command
  stored-accepts job_key key_list encoded w = ground arith

  asking-accepts : (id : Hash) (w : Worker) → (ocw_do_change_job_state id w).1.accepts ≡ w.accepts
  unfolding ocw_do_change_job_state submit_unsigned
  asking-accepts id w = ground arith

  -- A run ends well with whole keys on the result list that it has read, and an open pool.
  pub after_reading-ok :
      (w : Worker) (job_key : Bytes) → IsOpen w → (after_reading c job_key listed w).0 ≡ ok tt
  unfolding ocw_do_handling_job
  after_reading-ok w job_key takes =
      elim (handle_jobs-Handled c job_key (c.iter w.chain.job_queue) w) [
        | inl e ↦ rw e refl
        | inr (inl (ids, e)) ↦ rw e (unfold run_command in handle_results-ok w takes)
        | inr (inr (id, job, at, e)) ↦
            let w₁ = (ocw_do_change_job_state id w).1 in
            let same = asking-accepts id w in
            let key_list = job_key ++ c.encode_hash id in
            let encoded = c.encode_request (request_of c id job (ocw_do_change_job_state id w).0) in
            let run = run_command c job_key (Command.request_data key_list encoded) w₁ in
            rw (e, handle_pending_lem c job_key id job w _ w₁ refl)
              (handle_results-ok run (λ call.
                ap (λ (f : Call → Bool). f call) (stored-accepts job_key key_list encoded w₁ ∙ same)
                ∙ takes call))
      ]
