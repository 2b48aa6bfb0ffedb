-- ===== src/Pipeline/Again.antt =====
-- What later runs of the worker submit once a job has finished: nothing resets the result list.
use my_polkadot_orcale.Prelude.{
  Bytes, Bool, ◌≡◌, refl, true, ok, List, [], ◌∷◌, ◌++◌, bytes_eq, ap, ◌∙◌, sym, All, StoreMap,
}
use mathlib.Core.List.{append_assoc, append-nil}
use my_polkadot_orcale.Model.{Hash, finish}
use my_polkadot_orcale.Wasmstore.Types.{Config, State, Call, OcwJob}
use my_polkadot_orcale.Wasmstore.Worker.{Worker, ocw_do_handling_result, offchain_worker}
use my_polkadot_orcale.Wasmstore.Handoff.{FirstActive, IsPassedOver}
use my_polkadot_orcale.Wasmstore.Run.{IsReady}
use my_polkadot_orcale.Wasmstore.Submission.{Submits, calls_for, submit_results-Submits}
use my_polkadot_orcale.Pipeline.Delivery.{finish_run-submits}

-- The worker on the chain of a block.
abbrev pub on : State → Worker → Worker
on t w = record w { chain = t }

module _ (c : Config) where
  -- One run for each block, the earliest first.
  abbrev pub runs : List State → Worker → Worker
  runs [] w = w
  runs (t ∷ ts) w = runs ts (offchain_worker c (on t w)).1

  -- The calls for the listed results, again for each block.
  abbrev pub calls_each : List State → StoreMap Bytes Bytes → List Bytes → List Call
  calls_each [] db keys = []
  calls_each (t ∷ ts) db keys = calls_for c t.block_number db keys ++ calls_each ts db keys

  -- A finished job that comes first on the chain of a block.
  pub record FinishedFirst (t : State) : Type 0 where
    pub id : Hash
    pub job : OcwJob
    pub before : StoreMap Hash OcwJob
    pub rest : StoreMap Hash OcwJob
    pub visited : c.iter t.job_queue ≡ before ++ (id, job) ∷ rest
    pub passed_over : All IsPassedOver before
    pub finished : job.state ≡ finish

  module _ (job_key result_key : Bytes) (keys : List Bytes) where
    -- With both lists in the offchain storage and a pool that takes every call: in each of any
    -- number of blocks in which a finished job comes first, the worker submits every result of the
    -- result list, also those that it has submitted before, and the list stays as it is.
    pub submitted_again :
        (ts : List State) (w : Worker)
        → IsReady c w job_key result_key
        → ocw_do_handling_result result_key ≡ ok keys
        → ((call : Call) → w.accepts call ≡ true)
        → All FinishedFirst ts
        → ((runs ts w).submitted ≡ w.submitted ++ calls_each ts w.local keys)
          × ((runs ts w).local ≡ w.local)
    submitted_again [] w ready read takes first = (sym (append-nil _), refl)
    submitted_again (t ∷ ts) w ready read takes (first, later) =
        let u = on t w in
        let active : FirstActive c u first.id first.job = record {
          before = first.before;
          rest = first.rest;
          visited = first.visited;
          passed_over = first.passed_over;
        } in
        let run =
          finish_run-submits c u job_key result_key keys first.id first.job ready active
            first.finished read in
        let v = (offchain_worker c u).1 in
        let calls = calls_for c t.block_number w.local keys in
        let submits : Submits c calls u v = rw run (submit_results-Submits c keys u takes).1 in
        let ready' : IsReady c v job_key result_key = rw submits.same_local ready in
        let rest =
          submitted_again ts v ready' read
            (λ call. ap (λ (f : Call → Bool). f call) submits.same_accepts ∙ takes call) later in
        (
          rest.0
              ∙ ap (λ (xs : List Call). xs ++ calls_each ts v.local keys) submits.submitted
              ∙ append_assoc w.submitted calls (calls_each ts v.local keys)
              ∙ ap (λ (db : StoreMap Bytes Bytes). w.submitted ++ (calls ++ calls_each ts db keys))
                  submits.same_local,
          rest.1 ∙ submits.same_local,
        )
