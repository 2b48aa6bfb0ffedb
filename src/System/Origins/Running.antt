-- ===== src/System/Origins/Running.antt =====
-- The code of the scripts that run was published.
use my_polkadot_orcale.Prelude.{Bytes, ◌≡◌, Option, List, nat_eq, bytes_eq, All}
use my_polkadot_orcale.Model.{Public, AccountId, RequestPayload}
use my_polkadot_orcale.Wasmstore.Types.{Config, State}
use my_polkadot_orcale.Wasmstore.Chain.{Reach, here, next}
use my_polkadot_orcale.Wasmstore.Preserved.{genesis}
use my_polkadot_orcale.Wasmstore.Board.Origins.{Published, job_code-Published}
use my_polkadot_orcale.System.{System, Moves, Reachable}
use my_polkadot_orcale.System.Sound.{Each}
use my_polkadot_orcale.System.Safe.{Reachable-IsSafe}
use my_polkadot_orcale.System.Origins.Steps.{started-IsTraced, Moves-IsTraced}
use my_polkadot_orcale.System.Origins.{
  VisitsStored, All-map, Ordered, Answered, left, IsTraced, Starts, Restarts,
}

module _ (c : Config) where
  -- A script that runs is one that was published: its code and its interface.
  pub record RunsPublished (first t : State) (p : RequestPayload) : Type 0 where
    pub ordered : Ordered c t p
    pub published : Published c first t ordered.job

module _ (c : Config) (abi_reader : Bytes → Bytes → Option Bytes)
    (from_utf8 : Bytes → Option Bytes) where
  pub Reachable-IsTraced :
      (Q : Public → Type 0) {s t : System}
      → VisitsStored c
      → Each c.frame (λ k p. ⊥) s.worker.local
      → (r : Reachable c abi_reader from_utf8 s t) → Starts c abi_reader from_utf8 Q r
      → IsTraced c abi_reader from_utf8 Q s.worker.local t
  Reachable-IsTraced Q {s} visits none_left (Reachable.start keys) q =
      started-IsTraced c abi_reader from_utf8 Q s.worker.local s keys
        (λ k raw sized there. left there) q
  Reachable-IsTraced Q {s} visits none_left (Reachable.move r m) q =
      Moves-IsTraced c abi_reader from_utf8 Q s.worker.local visits none_left m q.1
        (Reachable-IsSafe c abi_reader from_utf8
          (λ k raw e there p d. absurd (none_left k raw e there p d)) r)
        (Reachable-IsTraced Q visits none_left r q.0)

  -- Every start has some key.
  any_start :
      {s t : System} (r : Reachable c abi_reader from_utf8 s t)
      → Starts c abi_reader from_utf8 (λ k. Unit {0}) r
  any_start (Reachable.start keys) = tt
  any_start (Reachable.move r m) = (any_start r, go m)
    where
      go :
          {s t : System} (m : Moves c abi_reader from_utf8 s t)
          → Restarts c abi_reader from_utf8 (λ k. Unit {0}) m
      go (Moves.node_restarts s keys) = tt
      go _ = tt

  -- The chain of the system has a history of its own.
  Moves-Reach :
      {s t : System}
      → Moves c abi_reader from_utf8 s t
      → (first : State) → Reach c first s.worker.chain
      → Reach c first t.worker.chain
  Moves-Reach (Moves.chain_moves s t st) first r = next r st
  Moves-Reach (Moves.pool_moves s accepts) first r = r
  Moves-Reach (Moves.worker_reads s job_key result_key there e) first r = r
  Moves-Reach (Moves.worker_writes s before after' x e) first r = r
  Moves-Reach (Moves.monitor_reads s e) first r = r
  Moves-Reach (Moves.monitor_writes s seen jobs e done) first r = r
  Moves-Reach (Moves.job_ends s before after p elapsed x e ran) first r = r
  Moves-Reach (Moves.job_panics s before after p elapsed e ran) first r = r
  Moves-Reach (Moves.listener_stores s x rest e) first r = r
  Moves-Reach (Moves.node_restarts s keys) first r = r

  Reachable-Reach :
      {s t : System} → Reachable c abi_reader from_utf8 s t → Reach c s.worker.chain t.worker.chain
  Reachable-Reach (Reachable.start keys) = here
  Reachable-Reach (Reachable.move r m) = Moves-Reach m _ (Reachable-Reach r)

  -- In a system that began with an empty chain and no request in the offchain storage, whatever
  -- the order of its steps: each script that runs has the id of a job of the queue, with that
  -- job's code and interface, which a published script had at an earlier moment of the history;
  -- and each result that waits for the listener is what the run of such a request gave. The
  -- worker's iteration visits entries of the queue only.
  pub running-RunsPublished :
      (collators : List AccountId) {s t : System}
      → VisitsStored c
      → s.worker.chain ≡ genesis c collators
      → Each c.frame (λ k p. ⊥) s.worker.local
      → Reachable c abi_reader from_utf8 s t
      → All (RunsPublished c (genesis c collators) t.worker.chain) t.running
        × All (Answered c abi_reader from_utf8 t.worker.chain) t.finished
  running-RunsPublished collators {s} {t} visits began none_stored r =
      let traced = Reachable-IsTraced (λ k. Unit {0}) visits none_stored r (any_start r) in
      let history : Reach c (genesis c collators) t.worker.chain =
        rw (← began) (Reachable-Reach r) in
      (
        All-map _ _
            (λ p o. record {
              ordered = o;
              published = job_code-Published c collators t.worker.chain o.id o.job history o.queued;
            })
            t.running traced.running,
        traced.finished,
      )
