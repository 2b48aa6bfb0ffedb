-- ===== src/System/Origins/Results.antt =====
-- Where the calls come from that the worker submits: through any order of steps, a result is what a
-- run of a script gave, or a stored request that reads as a result.
use my_polkadot_orcale.Prelude.{
  ℕ, Bytes, ◌≡◌, refl, Option, some, List, [], ◌++◌, ◌∷◌, lookup, nat_eq, bytes_eq, All, All-IsIn,
  IsIn, ◌∙◌, ap, sym, subst,
}
use mathlib.Core.Option.{some-injective}
use my_polkadot_orcale.Model.{Public, Hash, RequestPayload, ResponePayload}
use my_polkadot_orcale.Wasmstore.Types.{Config, State, Call, OcwJob}
use my_polkadot_orcale.Wasmstore.Worker.{after_reading}
use my_polkadot_orcale.Wasmstore.Jobs.{Keeps}
use my_polkadot_orcale.Wasmstore.Chain.{Step-Keeps}
use my_polkadot_orcale.Wasmstore.Run.Submitted.{result_call, Offers, after_reading-All}
use my_polkadot_orcale.Node.Executor.{JobResult, Db, respone_of}
use my_polkadot_orcale.System.{System, Reading, Moves, Reachable, run_on, worker_ran}
use my_polkadot_orcale.System.Sound.{Stored}
use my_polkadot_orcale.System.Safe.{IsReadable, Reachable-IsSafe, All-split}
use my_polkadot_orcale.System.Origins.{
  VisitsStored, All-map, Ordered, Ordered-Keeps, Answered, Answered-Keeps, Written, requested,
  answered, left, IsEarlier, IsTraced, Starts,
}
use my_polkadot_orcale.System.Origins.Running.{Reachable-IsTraced}

module _ (c : Config) (abi_reader : Bytes → Bytes → Option Bytes) (from_utf8 : Bytes → Option Bytes)
    (Q : Public → Type 0) where
  -- Why a call was submitted; `Q` says of a key that the node has answered under it.
  pub data HasOrigin (t : State) (call : Call) : Type 0 where
    asks :
        (n : ℕ) (id : Hash) (job : OcwJob)
        → lookup id t.job_queue ≡ some job
        → call ≡ Call.change_job_state n id
        → HasOrigin t call
    ran :
        (n : ℕ) (r : JobResult) (pk : Public)
        → Answered c abi_reader from_utf8 t r
        → Q pk
        → call ≡ Call.submit_result_unsiged n r.job_id r.result pk r.ext_time
        → HasOrigin t call
    -- the request of a job, whose bytes also read as a response
    misread :
        (n : ℕ) (p : RequestPayload) (res : ResponePayload)
        → Ordered c t p
        → c.decode_respone (c.encode_request p) ≡ some res
        → call ≡ result_call n res
        → HasOrigin t call

  HasOrigin-Keeps : {s t : State} → Keeps s t → (call : Call) → HasOrigin s call → HasOrigin t call
  HasOrigin-Keeps keep call (asks n id job there e) =
      let (job', there', still) = keep id job there in asks n id job' there' e
  HasOrigin-Keeps keep call (ran n r pk a q e) =
      ran n r pk (Answered-Keeps c abi_reader from_utf8 keep r a) q e
  HasOrigin-Keeps keep call (misread n p res o d e) = misread n p res (Ordered-Keeps c keep p o) d e

  -- A value of the storage, read as a response.
  offered :
      (old : Db) {t : State} (k raw : Bytes) (n : ℕ) (res : ResponePayload)
      → (lookup k old ≡ some raw → ⊥)
      → Written c abi_reader from_utf8 Q old t k raw
      → c.decode_respone raw ≡ some res
      → HasOrigin t (result_call n res)
  offered old k raw n res none_left (requested p o e) d =
      misread n p res o (ap c.decode_respone (sym e) ∙ d) refl
  offered old k raw n res none_left (answered r pk a q e) d =
      let same : res ≡ respone_of c.frame pk r =
        some-injective _ _
          (sym d ∙ ap c.decode_respone e ∙ c.decode-encode_respone (respone_of c.frame pk r)) in
      ran n r pk a q (ap (λ (x : ResponePayload). result_call n x) same)
  offered old k raw n res none_left (left there) d = absurd (none_left there)

  module _ (visits : VisitsStored c) {s : System}
      (none_stored : Stored (λ k raw. ⊥) s.worker.local) where
    traced :
        {t : System} (r : Reachable c abi_reader from_utf8 s t)
        → Starts c abi_reader from_utf8 Q r
        → IsTraced c abi_reader from_utf8 Q s.worker.local t
    traced r q =
        Reachable-IsTraced c abi_reader from_utf8 Q visits
          (λ k raw sized there p d. none_stored k raw sized there) r q

    -- What the rest of a run submits: the storage after it is traced as well.
    worker_writes-HasOrigin :
        {t : System} (r : Reachable c abi_reader from_utf8 s t)
        → Starts c abi_reader from_utf8 Q r
        → (before after' : List Reading) (x : Reading) → t.readings ≡ before ++ x ∷ after'
        → All (HasOrigin t.worker.chain) t.worker.submitted
        → All
            (HasOrigin t.worker.chain)
            (worker_ran c abi_reader from_utf8 x (before ++ after') t).worker.submitted
    worker_writes-HasOrigin {t} r q before after' x e h =
        let safe =
          Reachable-IsSafe c abi_reader from_utf8
            (λ k raw sized there p d. absurd (none_stored k raw sized there)) r in
        let (keys, sized, read) =
          (All-split IsReadable before x after' (rw e at safe.results_read)).0 in
        let keep =
          (All-split (IsEarlier c abi_reader from_utf8 Q t.worker.chain) before x after'
            (rw e at (traced r q).earlier)).0 in
        let later = traced (Reachable.move r (Moves.worker_writes t before after' x e)) (q, tt) in
        let asked : (n : ℕ) (id : Hash) (job : OcwJob)
            → IsIn (id, job) (c.iter x.seen_chain.job_queue)
            → HasOrigin t.worker.chain (Call.change_job_state n id) =
          λ n id job at.
            let queued =
              All-IsIn (λ y. lookup y.0 x.seen_chain.job_queue ≡ some y.1) (id, job)
                (c.iter x.seen_chain.job_queue) (visits x.seen_chain.job_queue) at in
            let (job', there, still) = keep id job queued in asks n id job' there refl in
        let offers : Offers (HasOrigin t.worker.chain) c
            (after_reading c x.job_key x.result_key
              (run_on c abi_reader from_utf8 x t.worker)).1.local =
          λ k raw n res sized' there d.
            offered s.worker.local k raw n res (none_stored k raw sized')
              (later.stored k raw sized' there) d in
        let run =
          after_reading-All (HasOrigin t.worker.chain) c keys x.job_key
            (run_on c abi_reader from_utf8 x t.worker) sized asked in
        subst
          (λ key.
            let w' = (after_reading c x.job_key key (run_on c abi_reader from_utf8 x t.worker)).1 in
            Offers (HasOrigin t.worker.chain) c w'.local
            → All (HasOrigin t.worker.chain) t.worker.submitted
            → All (HasOrigin t.worker.chain) w'.submitted)
          (sym read) run offers h

    Moves-HasOrigin :
        {t u : System} (r : Reachable c abi_reader from_utf8 s t)
        → Starts c abi_reader from_utf8 Q r
        → Moves c abi_reader from_utf8 t u
        → All (HasOrigin t.worker.chain) t.worker.submitted
        → All (HasOrigin u.worker.chain) u.worker.submitted
    Moves-HasOrigin r q (Moves.chain_moves t v st) h =
        All-map _ _ (HasOrigin-Keeps {s = t.worker.chain} {t = v} (Step-Keeps c st))
          t.worker.submitted h
    Moves-HasOrigin r q (Moves.pool_moves t accepts) h = h
    Moves-HasOrigin r q (Moves.worker_reads t job_key result_key there e) h = h
    Moves-HasOrigin r q (Moves.worker_writes t before after' x e) h =
        worker_writes-HasOrigin r q before after' x e h
    Moves-HasOrigin r q (Moves.monitor_reads t e) h = h
    Moves-HasOrigin r q (Moves.monitor_writes t seen jobs e done) h = h
    Moves-HasOrigin r q (Moves.job_ends t before after p elapsed x e ran') h = h
    Moves-HasOrigin r q (Moves.job_panics t before after p elapsed e ran') h = h
    Moves-HasOrigin r q (Moves.listener_stores t x rest e) h = h
    Moves-HasOrigin r q (Moves.node_restarts t keys) h = h

    -- In a system that began with nothing under a whole key of the offchain storage and nothing
    -- submitted, whatever the order of its steps: each call that the worker has submitted asks for
    -- the next state of a job of the queue, or submits what a run of the script of a job of the queue
    -- gave, with its time, under the first key of the keystore with which the node started, or the
    -- default key of a start with none; else it is a response that the stored request of such a job
    -- reads as. `Q` holds of those keys; the worker's iteration visits entries of the queue only.
    pub submitted-HasOrigin :
        {t : System} (r : Reachable c abi_reader from_utf8 s t)
        → Starts c abi_reader from_utf8 Q r
        → s.worker.submitted ≡ []
        → All (HasOrigin t.worker.chain) t.worker.submitted
    submitted-HasOrigin (Reachable.start keys) q none_submitted = rw none_submitted tt
    submitted-HasOrigin (Reachable.move r m) q none_submitted =
        Moves-HasOrigin r q.0 m (submitted-HasOrigin r q.0 none_submitted)
