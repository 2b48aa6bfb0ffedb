-- ===== src/Wasmstore/Submission.antt =====
-- The results that the wasmstore offchain worker submits.
use mathlib.Core.List.{append_assoc, append-nil}
use my_polkadot_orcale.Prelude.{
  ℕ, Bool, Bytes, ◌≡◌, refl, Option, none, some, arith, true, ok, List, [], ◌∷◌, ◌++◌, lookup,
  StoreMap, bytes_eq, Option-cases, inl, inr, ap, ◌∙◌, sym,
}
use my_polkadot_orcale.Model.{ResponePayload}
use my_polkadot_orcale.Wasmstore.Types.{Config, Call}
use my_polkadot_orcale.Wasmstore.Worker.{
  Worker, ocw_do_submit_result, submit_respone, submit_results,
}

module _ (c : Config) where
  -- The call for a response that the executor left.
  abbrev pub call_for : ℕ → Option ResponePayload → List Call
  call_for n none = []
  call_for n (some res) =
      Call.submit_result_unsiged n res.job_id res.job_result res.address res.exe_time ∷ []

  abbrev pub stored_respone : StoreMap Bytes Bytes → Bytes → Option ResponePayload
  stored_respone db key = elim (lookup key db) [ none ↦ none | some val ↦ c.decode_respone val ]

  -- The calls for the keys of a result list, in its order.
  abbrev pub calls_for : ℕ → StoreMap Bytes Bytes → List Bytes → List Call
  calls_for n db [] = []
  calls_for n db (key ∷ keys) = call_for n (stored_respone db key) ++ calls_for n db keys

  -- What a run of the submission loop leaves behind.
  pub record Submits (calls : List Call) (w w' : Worker) : Type 0 where
    pub submitted : w'.submitted ≡ w.submitted ++ calls
    pub same_local : w'.local ≡ w.local
    pub same_block : w'.chain.block_number ≡ w.chain.block_number
    pub same_accepts : w'.accepts ≡ w.accepts

  submit_respone-Submits :
      (found : Option ResponePayload) (w : Worker)
      → ((call : Call) → w.accepts call ≡ true)
      → ((submit_respone c found w).0 ≡ ok tt)
        × Submits (call_for w.chain.block_number found) w (submit_respone c found w).1
  unfolding ocw_do_submit_result
  submit_respone-Submits none w h = (
    refl,
    record {
      submitted = sym (append-nil _);
      same_local = refl;
      same_block = refl;
      same_accepts = refl;
    },
  )
  submit_respone-Submits (some res) w h = rw (c.decode-encode_public res.address) (
      rw
        (h (
          Call.submit_result_unsiged w.chain.block_number res.job_id res.job_result res.address
            res.exe_time))
        (
          refl,
          record { submitted = refl; same_local = refl; same_block = refl; same_accepts = refl },
        ))

  Submits-trans :
      {cs ds : List Call} {u v w : Worker}
      → Submits cs u v
      → Submits ds v w
      → Submits (cs ++ ds) u w
  Submits-trans {cs} {ds} {u} {v} {w} p q = record {
    submitted =
        q.submitted ∙ ap (λ (t : List Call). t ++ ds) p.submitted ∙ append_assoc u.submitted cs ds;
    same_local = q.same_local ∙ p.same_local;
    same_block = q.same_block ∙ p.same_block;
    same_accepts = q.same_accepts ∙ p.same_accepts;
  }

  submit_results-cons :
      (key : Bytes) (keys : List Bytes) (w : Worker)
      → (submit_respone c (stored_respone w.local key) w).0 ≡ ok tt
      → submit_results c (key ∷ keys) w
        ≡ submit_results c keys (submit_respone c (stored_respone w.local key) w).1
  unfolding submit_results
  submit_results-cons key keys w h = elim (Option-cases (lookup key w.local)) [
    | inl e ↦ ground arith
    | inr (v, e) ↦ ground arith
  ]

  -- With a pool that takes every call, the worker submits one call for each key of the list that
  -- has a response, in the order of the list, and changes nothing in the offchain storage.
  pub submit_results-Submits :
      (keys : List Bytes) (w : Worker)
      → ((call : Call) → w.accepts call ≡ true)
      → ((submit_results c keys w).0 ≡ ok tt)
        × Submits (calls_for w.chain.block_number w.local keys) w (submit_results c keys w).1
  submit_results-Submits [] w h =
      unfold submit_results in
      (
        refl,
        record {
          submitted = sym (append-nil _);
          same_local = refl;
          same_block = refl;
          same_accepts = refl;
        },
      )
  submit_results-Submits (key ∷ keys) w h =
      let found = stored_respone w.local key in
      let (done, first) = submit_respone-Submits found w h in
      let w' = (submit_respone c found w).1 in
      let (all_done, rest) =
        submit_results-Submits keys w'
          (λ call. ap (λ (f : Call → Bool). f call) first.same_accepts ∙ h call) in
      rw (submit_results-cons key keys w done)
        (all_done, Submits-trans first (rw (first.same_local, first.same_block) at rest))
