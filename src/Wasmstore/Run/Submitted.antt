-- ===== src/Wasmstore/Run/Submitted.antt =====
-- What a run of the wasmstore worker submits, whatever its outcome.
use my_polkadot_orcale.Prelude.{
  ℕ, Bytes, ◌≡◌, refl, sym, arith, Option, none, some, ok, err, panic, Outcome, List, [], ◌∷◌, ◌++◌,
  length, lookup, bytes_eq, inl, inr, All, All-append, HaveLength, IsIn, flatten, Bool-cases,
  Option-cases, return, StoreMap, subst, Exec, after,
}
use my_polkadot_orcale.Model.{Hash, ResponePayload}
use my_polkadot_orcale.Wasmstore.Types.{Config, Call, OcwJob}
use my_polkadot_orcale.Wasmstore.Worker.{
  Worker, Command, WasmStoreErr, init_value, submit_unsigned, ocw_do_change_job_state,
  ocw_do_submit_result, ocw_do_handling_result, ocw_do_handling_job, run_command, submit_respone,
  submit_results, handle_results, after_reading, request_of,
}
use my_polkadot_orcale.Wasmstore.Handoff.{ocw_do_handling_result-append}
use my_polkadot_orcale.Wasmstore.Run.{
  handle_pending_lem, handle_results-local, submit_respone-local,
}
use my_polkadot_orcale.Wasmstore.Run.Effect.{handle_jobs-Handled}

-- The call for a response.
abbrev pub result_call : ℕ → ResponePayload → Call
result_call n res = Call.submit_result_unsiged n res.job_id res.job_result res.address res.exe_time

stored-submitted :
    (c : Config) (job_key key_list encoded : Bytes) (w : Worker)
    → (run_command c job_key (Command.request_data key_list encoded) w).submitted ≡ w.submitted
unfolding run_command
stored-submitted c job_key key_list encoded w = ground arith

module _ (P : Call → Type 0) where
  submit_unsigned-All :
      (call : Call) (w : Worker)
      → P call
      → All P w.submitted
      → All P (submit_unsigned call w).1.submitted
  unfolding submit_unsigned
  submit_unsigned-All call w p h = elim (Bool-cases (w.accepts call)) [
    | inl e ↦ rw e (All-append P w.submitted (call ∷ []) h (p, tt))
    | inr e ↦ rw e h
  ]

  asking-All :
      (id : Hash) (w : Worker)
      → ((n : ℕ) → P (Call.change_job_state n id))
      → All P w.submitted
      → All P (ocw_do_change_job_state id w).1.submitted
  unfolding ocw_do_change_job_state
  asking-All id w p h =
      submit_unsigned-All (Call.change_job_state w.chain.block_number id) w (p w.chain.block_number)
        h

  module _ (c : Config) where
    submit_respone-All :
        (found : Option ResponePayload) (w : Worker)
        → ((n : ℕ) (res : ResponePayload) → found ≡ some res → P (result_call n res))
        → All P w.submitted
        → All P (submit_respone c found w).1.submitted
    unfolding ocw_do_submit_result
    submit_respone-All none w p h = h
    submit_respone-All (some res) w p h = rw (c.decode-encode_public res.address) (
        submit_unsigned-All (result_call w.chain.block_number res) w
          (p w.chain.block_number res refl) h)

    -- What the responses under whole keys of a storage would be submitted as.
    abbrev pub Offers : StoreMap Bytes Bytes → Type 0
    Offers db =
        (k raw : Bytes) (n : ℕ) (res : ResponePayload)
        → length k ≡ 32
        → lookup k db ≡ some raw
        → c.decode_respone raw ≡ some res
        → P (result_call n res)

    after-All :
        (k : Exec Worker WasmStoreErr (Unit {0})) (r : Outcome WasmStoreErr (Unit {0})) (w : Worker)
        → All P w.submitted
        → All P (k w).1.submitted
        → All P (after r (λ _. k) w).1.submitted
    after-All k (ok a) w h later = later
    after-All k (err e) w h later = h
    after-All k panic w h later = h

    submit_results-All :
        (keys : List Bytes) (w : Worker)
        → HaveLength 32 keys
        → Offers w.local
        → All P w.submitted
        → All P (submit_results c keys w).1.submitted
    unfolding submit_results
    submit_results-All [] w sized offers h = h
    submit_results-All (key ∷ keys) w sized offers h = elim (Option-cases (lookup key w.local)) [
      | inl e ↦ rw (e, return) (submit_results-All keys w sized.1 offers h)
      | inr (raw, e) ↦
          let found = c.decode_respone raw in
          let w' = (submit_respone c found w).1 in
          let first = submit_respone-All found w (λ n res d. offers key raw n res sized.0 e d) h in
          let same : w'.local ≡ w.local = submit_respone-local c found w in
          let offers' : Offers w'.local = subst (λ d. Offers d) (sym same) offers in
          rw e (
            after-All (submit_results c keys) (submit_respone c found w).0 w' first
              (submit_results-All keys w' sized.1 offers' first))
    ]

    -- The loop runs over the whole keys of a result list, if there is any key.
    handle_results-All :
        (keys : List Bytes) (w : Worker)
        → HaveLength 32 keys
        → Offers w.local
        → All P w.submitted
        → All P
            (handle_results c (ocw_do_handling_result (init_value ++ flatten keys)) w).1.submitted
    handle_results-All [] w sized offers h = unfold ocw_do_handling_result in unfold flatten in h
    handle_results-All (k ∷ keys) w sized offers h =
        rw (ocw_do_handling_result-append k keys sized)
          (submit_results-All (k ∷ keys) w sized offers h)

    -- Every call of a run of the worker, whatever its outcome, was there before, asks for the next
    -- state of a job that it visited, or is for a response that is stored once the run has ended.
    pub after_reading-All :
        (keys : List Bytes) (job_key : Bytes) (w : Worker)
        → HaveLength 32 keys
        → ((n : ℕ) (id : Hash) (job : OcwJob)
            → IsIn (id, job) (c.iter w.chain.job_queue)
            → P (Call.change_job_state n id))
        → let w' = (after_reading c job_key (init_value ++ flatten keys) w).1 in
          Offers w'.local → All P w.submitted → All P w'.submitted
    unfolding ocw_do_handling_job
    after_reading-All keys job_key w sized asks =
        let result_key = init_value ++ flatten keys in
        elim (handle_jobs-Handled c job_key (c.iter w.chain.job_queue) w) [
          | inl e ↦ rw e (λ offers h. h)
          | inr (inl (ids, e)) ↦ rw e (
              unfold run_command in
              λ offers h.
                handle_results-All keys w sized
                  (subst (λ d. Offers d)
                    (handle_results-local c (ocw_do_handling_result result_key) w) offers)
                  h)
          | inr (inr (id, job, at, e)) ↦
              let r = ocw_do_change_job_state id w in
              let run =
                run_command c job_key
                  (Command.request_data (job_key ++ c.encode_hash id)
                    (c.encode_request (request_of c id job r.0)))
                  r.1 in
              rw (e, handle_pending_lem c job_key id job w r.0 r.1 refl)
                (λ offers h.
                  handle_results-All keys run sized
                    (subst (λ d. Offers d)
                      (handle_results-local c (ocw_do_handling_result result_key) run) offers)
                    (subst (λ t. All P t) (sym (stored-submitted c job_key _ _ r.1))
                      (asking-All id w (λ n. asks n id job at) h)))
        ]
