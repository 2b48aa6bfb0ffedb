-- ===== src/System/Origins.antt =====
-- Which code the executor runs: what it means that what is stored, what runs and what has finished
-- is traced to jobs of the queue.
pub mod Steps
pub mod Running
pub mod Results
use my_polkadot_orcale.Prelude.{
  ℕ, Bytes, ◌≡◌, ◌≢◌, Option, none, some, arith, ok, List, [], ◌∷◌, ◌++◌, length, lookup, nat_eq,
  bytes_eq, ap, ◌∙◌, All, All-append, All-IsIn, IsIn, StoreMap, refl, sym, subst, insert,
}
use my_polkadot_orcale.Model.{Public, Hash, AccountId, RequestPayload}
use my_polkadot_orcale.Wasmstore.Types.{Config, State, OcwJob}
use my_polkadot_orcale.Wasmstore.Worker.{request_of}
use my_polkadot_orcale.Wasmstore.Jobs.{Keeps, Keeps-trans, Continues-refl}
use my_polkadot_orcale.Wasmstore.Chain.{Step, Step-Keeps, Reach, here, next}
use my_polkadot_orcale.Wasmstore.Preserved.{genesis}
use my_polkadot_orcale.Wasmstore.Board.Origins.{Published, job_code-Published}
use my_polkadot_orcale.Node.Executor.{
  JobResult, Db, run_executor, respone_of, run_job, wasmstore_result_list,
}
use my_polkadot_orcale.System.{System, Reading, Moves, Reachable, started}
use my_polkadot_orcale.System.Sound.{
  IsListed, Stored, Reads, Reads-encode, Each, Named, ne_of_length,
}
use my_polkadot_orcale.System.Sound.Payloads.{
  Stored-start, Stored-result, Stored-monitor, Stored-worker, taken-All,
}
use my_polkadot_orcale.System.Safe.{IsSafe, Reachable-IsSafe, All-split}

-- `JobQueue::iter` visits entries of the map only.
abbrev pub VisitsStored : Config → Type 0
VisitsStored c = (jobs : StoreMap Hash OcwJob) → All (λ x. lookup x.0 jobs ≡ some x.1) (c.iter jobs)

pub All-map :
    {A : Type 0} (P Q : A → Type 0) → ((a : A) → P a → Q a) → (xs : List A) → All P xs → All Q xs
All-map P Q f [] h = tt
All-map P Q f (x ∷ xs) h = (f x h.0, All-map P Q f xs h.1)

module _ (c : Config) where
  -- A request for a job of the queue, with its code and its interface.
  pub record Ordered (t : State) (p : RequestPayload) : Type 0 where
    pub id : Hash
    pub job : OcwJob
    pub queued : lookup id t.job_queue ≡ some job
    pub same_id : p.job_id ≡ c.encode_hash id
    pub same_code : p.job_content ≡ job.wasm_code
    pub same_abi : p.content_abi ≡ job.wasm_abi

  pub Ordered-Keeps : {s t : State} → Keeps s t → (p : RequestPayload) → Ordered s p → Ordered t p
  Ordered-Keeps keep p o =
      let (job, there, still) = keep o.id o.job o.queued in
      record {
        id = o.id;
        job = job;
        queued = there;
        same_id = o.same_id;
        same_code = o.same_code ∙ sym still.same_code;
        same_abi = o.same_abi ∙ sym still.same_abi;
      }

  module _ (abi_reader : Bytes → Bytes → Option Bytes) (from_utf8 : Bytes → Option Bytes) where
    -- A result that a run of a job of the queue has given.
    pub record Answered (t : State) (r : JobResult) : Type 0 where
      pub request : RequestPayload
      pub ordered : Ordered t request
      pub elapsed : ℕ
      pub ran : run_job c.frame abi_reader from_utf8 elapsed request ≡ some r

    pub Answered-Keeps : {s t : State} → Keeps s t → (r : JobResult) → Answered s r → Answered t r
    Answered-Keeps keep r a = record {
      request = a.request;
      ordered = Ordered-Keeps keep a.request a.ordered;
      elapsed = a.elapsed;
      ran = a.ran;
    }

    module _ (Q : Public → Type 0) where
      -- Whose a value of the offchain storage is: a request, a result under a key of the executor, or
      -- left from before the start.
      pub data Written (old : Db) (t : State) (k raw : Bytes) : Type 0 where
        requested :
            (p : RequestPayload) → Ordered t p → raw ≡ c.encode_request p → Written old t k raw
        answered :
            (r : JobResult) (pk : Public)
            → Answered t r
            → Q pk
            → raw ≡ c.encode_respone (respone_of c.frame pk r)
            → Written old t k raw
        left : lookup k old ≡ some raw → Written old t k raw

      pub Written-Keeps :
          {old : Db} {s t : State}
          → Keeps s t
          → (k raw : Bytes) → Written old s k raw
          → Written old t k raw
      Written-Keeps keep k raw (requested p o e) = requested p (Ordered-Keeps keep p o) e
      Written-Keeps keep k raw (answered r pk a q' e) = answered r pk (Answered-Keeps keep r a) q' e
      Written-Keeps keep k raw (left there) = left there

      -- A value that reads as a request is one that the worker stored: a finished response is none.
      pub Written-Reads :
          {old : Db} {t : State} (k raw : Bytes)
          → (lookup k old ≡ some raw → Reads c.frame (λ k p. ⊥) k raw)
          → Written old t k raw
          → Reads c.frame (λ k p. Ordered t p) k raw
      Written-Reads {t = t} k raw none_left (requested p o e) q d =
          Reads-encode c.frame (λ k x. Ordered t x) k p o q (ap c.decode_request (sym e) ∙ d)
      Written-Reads k raw none_left (answered r pk a q' e) q d =
          absurd (ground (arith, e, d, c.decode_request-finished (respone_of c.frame pk r) refl))
      Written-Reads k raw none_left (left there) q d = absurd (none_left there q d)

      -- The chain that a run has read is an earlier one.
      abbrev pub IsEarlier : State → Reading → Type 0
      IsEarlier t r = Keeps r.seen_chain t

      pub record IsTraced (old : Db) (s : System) : Type 0 where
        pub earlier : All (IsEarlier s.worker.chain) s.readings
        pub stored : Stored (Written old s.worker.chain) s.worker.local
        pub running : All (Ordered s.worker.chain) s.running
        pub finished : All (Answered s.worker.chain) s.finished
        pub processor : Q s.processor

-- The key under which the executor answers: the first of the keystore, or the default one.
abbrev pub processor_of : List Public → Public
processor_of [] = 0
processor_of (k ∷ keys) = k

module _ (c : Config) (abi_reader : Bytes → Bytes → Option Bytes) (from_utf8 : Bytes → Option Bytes)
    (Q : Public → Type 0) where
  -- What holds of the key of each start of the node.
  abbrev pub Restarts : {s t : System} → Moves c abi_reader from_utf8 s t → Type 0
  Restarts (Moves.node_restarts s keys) = Q (processor_of keys)
  Restarts _ = Unit {0}

  abbrev pub Starts : {s t : System} → Reachable c abi_reader from_utf8 s t → Type 0
  Starts (Reachable.start keys) = Q (processor_of keys)
  Starts (Reachable.move r m) = Starts r × Restarts m

  pub run_executor-processor_of :
      (keys : List Public) (db : Db) → Q (processor_of keys) → Q (run_executor c.frame keys db).1
  unfolding run_executor
  run_executor-processor_of [] db q = q
  run_executor-processor_of (k ∷ keys) db q = q
