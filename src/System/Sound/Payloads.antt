-- ===== src/System/Sound/Payloads.antt =====
-- What holds of every value under a whole key, through each step that writes to the offchain storage,
-- and of the requests that are taken from there.
use Prim.Native.String.{String}
use my_polkadot_orcale.Prelude.{
  Bytes, ◌≡◌, ◌≢◌, Bool, refl, Option, none, some, arith, ok, err, panic, Outcome, List, [], ◌∷◌,
  ◌++◌, length, lookup, insert, bytes_eq, inl, inr, ap, All, IsIn, HaveLength, codes, ◌==◌,
  if◌then◌else◌, true, false,
}
use my_polkadot_orcale.Model.{Public, Hash, RequestPayload}
use my_polkadot_orcale.Frame.{Frame}
use my_polkadot_orcale.Wasmstore.Types.{Config, OcwJob}
use my_polkadot_orcale.Wasmstore.Worker.{
  Worker, master_key, request_of, compare_and_set, default_request, after_reading,
}
use my_polkadot_orcale.Wasmstore.Run.Effect.{after_reading-Lists}
use my_polkadot_orcale.Node.Executor.{
  JobResult, Db, wasmstore_key_list, wasmstore_result_list, id_key, respone_of, result_listener,
  monitor_turn, note_key, get_processor_keypair, StorageError, request_at, assigned_jobs,
  run_executor,
}
use my_polkadot_orcale.Node.Storage.{monitor_turn_lem, result_listener_state}
use my_polkadot_orcale.System.Sound.{
  IsListed, Stored, Stored-insert, Stored-insert_other, Reads, Each,
}

module _ (f : Frame) (R : Bytes → Bytes → Type 0) where
  pub Stored-start :
      (keys : List Public) (db : Db) → Stored R db → Stored R (run_executor f keys db).0
  unfolding run_executor
  Stored-start keys db h = noted keys _ (
      Stored-insert_other R wasmstore_result_list (codes "init")
        (insert wasmstore_key_list (codes "init") db) (λ e. omega (arith, e))
        (Stored-insert_other R wasmstore_key_list (codes "init") db (λ e. omega (arith, e)) h))
    where
      noted :
          (keys : List Public)
          → (d : Db) → Stored R d
          → Stored R (note_key f (get_processor_keypair keys) d).0
      noted [] d l = l
      noted (k ∷ keys) d l =
          Stored-insert_other R id_key (f.encode_public k) d (λ e. omega (arith, e)) l

  pub Stored-result :
      (pk : Public) (r : JobResult) (listed : Bytes) (db : Db)
      → r.job_id ≢ wasmstore_result_list
      → lookup wasmstore_result_list db ≡ some listed
      → R r.job_id (f.encode_respone (respone_of f pk r))
      → Stored R db
      → Stored R (result_listener f pk r db)
  Stored-result pk r listed db ne e new h =
      let v = f.encode_respone (respone_of f pk r) in
      rw (result_listener_state f pk r listed db ne e) (
        Stored-insert_other R wasmstore_result_list (listed ++ r.job_id) (insert r.job_id v db)
          (λ e. omega (arith, e)) (Stored-insert R r.job_id v db (λ sized. new) h))

  pub Stored-monitor :
      (seen db : Db)
      → IsListed wasmstore_key_list seen
      → Stored R db
      → Stored R (monitor_turn f seen db).1
  Stored-monitor seen db l h =
      rw (monitor_turn_lem f l.keys seen db l.sized l.text)
        (Stored-insert_other R wasmstore_key_list (codes "init") db (λ e. omega (arith, e)) h)

module _ (f : Frame) (R : RequestPayload → Type 0) where
  assigned_jobs-All :
      (keys : List Bytes) (db : Db)
      → HaveLength 32 keys
      → Each f (λ k p. R p) db
      → All R (assigned_jobs f keys db)
  unfolding assigned_jobs
  assigned_jobs-All [] db sized h = tt
  assigned_jobs-All (k ∷ keys) db sized h =
      first (request_at f (lookup k db)) (assigned_jobs f keys db) (of_key (lookup k db) refl)
        (assigned_jobs-All keys db sized.1 h)
    where
      of_key :
          (o : Option Bytes)
          → lookup k db ≡ o
          → (p : RequestPayload) → request_at f o ≡ some p
          → R p
      of_key none there p e = absurd (ground (arith, e))
      of_key (some raw) there p e = h k raw sized.0 there p e

      first :
          (o : Option RequestPayload) (rest : List RequestPayload)
          → ((p : RequestPayload) → o ≡ some p → R p)
          → All R rest
          → All R (elim o [ none ↦ rest | some p ↦ p ∷ rest ])
      first none rest h k = k
      first (some p) rest h k = (h p refl, k)

  abbrev jobs_of : Outcome StorageError (List RequestPayload) → List RequestPayload
  jobs_of (ok jobs) = jobs
  jobs_of (err e) = []
  jobs_of panic = []

  -- The jobs that a turn of the monitor takes.
  pub taken-All :
      (seen db : Db) (jobs : List RequestPayload)
      → IsListed wasmstore_key_list seen
      → Each f (λ k p. R p) db
      → (monitor_turn f seen db).0 ≡ ok jobs
      → All R jobs
  taken-All seen db jobs l h e =
      let db' = insert wasmstore_key_list (codes "init") db in
      let turn = monitor_turn_lem f l.keys seen db l.sized l.text in
      let same : assigned_jobs f l.keys db' ≡ jobs = ap jobs_of (rw turn at e) in
      rw (← same) (
        assigned_jobs-All l.keys db' l.sized (
          Stored-insert_other (Reads f (λ k p. R p)) wasmstore_key_list (codes "init") db
            (λ e. omega (arith, e)) h))

module _ (c : Config) (R : Bytes → Bytes → Type 0) where
  Stored-swapped :
      (key old new : Bytes) (db : Db)
      → length key ≢ 32
      → Stored R db
      → Stored R (compare_and_set key old new db)
  Stored-swapped key old new db ne h = go (lookup key db)
    where
      written : (b : Bool) → Stored R (if b then insert key new db else db)
      written true = Stored-insert_other R key new db ne h
      written false = h

      go :
          (o : Option Bytes)
          → Stored R (elim o [ none ↦ db | some v ↦ if v == old then insert key new db else db ])
      go none = h
      go (some v) = written (v == old)

  Stored-request :
      (id : Hash) (job : OcwJob) (answer : Outcome String (Unit {0})) (db : Db)
      → R (c.encode_hash id) (c.encode_request (request_of c id job (ok tt)))
      → Stored R db
      → Stored R (
          insert
            (request_of c id job answer).job_id
            (c.encode_request (request_of c id job answer))
            db)
  Stored-request id job (ok tt) db q h =
      Stored-insert R (c.encode_hash id) (c.encode_request (request_of c id job (ok tt))) db
        (λ sized. q) h
  Stored-request id job (err e) db q h =
      Stored-insert_other R [] (c.encode_request default_request) db (λ e. omega (arith, e)) h
  Stored-request id job panic db q h =
      Stored-insert_other R [] (c.encode_request default_request) db (λ e. omega (arith, e)) h

  -- A run of the worker writes requests of jobs that it visited, and no other.
  pub Stored-worker :
      (job_key result_key : Bytes) (w : Worker)
      → ((id : Hash) (job : OcwJob)
          → IsIn (id, job) (c.iter w.chain.job_queue)
          → R (c.encode_hash id) (c.encode_request (request_of c id job (ok tt))))
      → Stored R w.local
      → Stored R (after_reading c job_key result_key w).1.local
  Stored-worker job_key result_key w q h = elim (after_reading-Lists c job_key result_key w) [
    | inl e ↦ rw e h
    | inr l ↦ rw l.now (
        Stored-request l.id l.job l.answer
          (compare_and_set master_key job_key (job_key ++ c.encode_hash l.id) w.local)
          (q l.id l.job l.visited)
          (Stored-swapped master_key job_key (job_key ++ c.encode_hash l.id) w.local
            (λ e. omega (arith, e)) h))
  ]
