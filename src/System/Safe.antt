-- ===== src/System/Safe.antt =====
-- What holds at every moment of the system, whatever the order of its steps: both lists and the
-- payloads are sound, and no reader of a list panics.
use my_polkadot_orcale.Prelude.{
  Bytes, ◌≡◌, ◌≢◌, Option, some, arith, ok, panic, List, [], ◌∷◌, ◌++◌, length, bytes_eq, ap, sym,
  ◌∙◌, HaveLength, All, All-append, true,
}
use mathlib.Core.Option.{some-injective}
use my_polkadot_orcale.Model.{Public}
use my_polkadot_orcale.Wasmstore.Types.{Config, Call}
use my_polkadot_orcale.Wasmstore.Worker.{after_reading, offchain_worker}
use my_polkadot_orcale.Wasmstore.Run.{worker_run}
use my_polkadot_orcale.Node.Executor.{JobResult, Db, wasmstore_key_list, monitor_turn}
use my_polkadot_orcale.Node.Storage.{monitor_turn_lem, run_job-job_id}
use my_polkadot_orcale.Wasmstore.Run.Total.{after_reading-ok}
use my_polkadot_orcale.System.{System, Reading, Moves, Reachable, started, run_on}
use my_polkadot_orcale.System.Sound.{listing, IsListed, IsSound, Named, HasJobId}
use my_polkadot_orcale.System.Sound.Steps.{
  IsSound-start, IsSound-result, IsSound-monitor, IsSound-worker, taken-HasJobId,
}

pub All-split :
    {A : Type 0} (P : A → Type 0) (before : List A) (x : A) (after : List A)
    → All P (before ++ x ∷ after)
    → P x × All P (before ++ after)
All-split P [] x after h = h
All-split P (y ∷ before) x after h =
    let (p, rest) = All-split P before x after h.1 in (p, (h.0, rest))

abbrev pub IdSized : JobResult → Type 0
IdSized r = length r.job_id ≡ 32

-- A result list that a run has read.
abbrev pub IsReadable : Reading → Type 0
IsReadable r = (keys : List Bytes) × HaveLength 32 keys × (r.result_key ≡ listing keys)

module _ (c : Config) (abi_reader : Bytes → Bytes → Option Bytes)
    (from_utf8 : Bytes → Option Bytes) where
  pub record IsSafe (s : System) : Type 0 where
    pub sound : IsSound c.frame s.worker.local
    pub seen_listed : (db : Db) → s.read_in ≡ some db → IsListed wasmstore_key_list db
    pub running_sized : All HasJobId s.running
    pub finished_sized : All IdSized s.finished
    pub results_read : All IsReadable s.readings

  started-IsSafe :
      (s : System) (keys : List Public)
      → Named c.frame s.worker.local
      → IsSafe (started c abi_reader from_utf8 keys s)
  started-IsSafe s keys named = record {
    sound = IsSound-start c.frame keys s.worker.local named;
    seen_listed = λ db e. absurd (ground (arith, e));
    running_sized = tt;
    finished_sized = tt;
    results_read = tt;
  }

  Moves-IsSafe : {s t : System} → Moves c abi_reader from_utf8 s t → IsSafe s → IsSafe t
  Moves-IsSafe (Moves.chain_moves s t st) h = record {
    results_read = h.results_read;
    sound = h.sound;
    seen_listed = h.seen_listed;
    running_sized = h.running_sized;
    finished_sized = h.finished_sized;
  }
  Moves-IsSafe (Moves.pool_moves s accepts) h = record {
    results_read = h.results_read;
    sound = h.sound;
    seen_listed = h.seen_listed;
    running_sized = h.running_sized;
    finished_sized = h.finished_sized;
  }
  Moves-IsSafe (Moves.worker_reads s job_key result_key there e) h = record {
    sound = h.sound;
    seen_listed = h.seen_listed;
    running_sized = h.running_sized;
    finished_sized = h.finished_sized;
    results_read = (
      (
        h.sound.results.keys,
        h.sound.results.sized,
        some-injective _ _ (sym e ∙ h.sound.results.text),
      ),
      h.results_read,
    );
  }
  Moves-IsSafe (Moves.worker_writes s before after' r e) h = record {
    sound =
        IsSound-worker c r.job_key r.result_key (record s.worker { chain = r.seen_chain }) h.sound;
    seen_listed = h.seen_listed;
    running_sized = h.running_sized;
    finished_sized = h.finished_sized;
    results_read = (All-split IsReadable before r after' (rw e at h.results_read)).1;
  }
  Moves-IsSafe (Moves.monitor_reads s e) h = record {
    results_read = h.results_read;
    sound = h.sound;
    seen_listed = λ db e'. rw (← some-injective _ _ e') h.sound.jobs;
    running_sized = h.running_sized;
    finished_sized = h.finished_sized;
  }
  Moves-IsSafe (Moves.monitor_writes s seen jobs e done) h =
      let l = h.seen_listed seen e in
      record {
        results_read = h.results_read;
        sound = IsSound-monitor c.frame seen s.worker.local l h.sound;
        seen_listed = λ db e'. absurd (ground (arith, e'));
        running_sized =
            All-append HasJobId s.running jobs h.running_sized
              (taken-HasJobId c.frame seen s.worker.local jobs l h.sound done);
        finished_sized = h.finished_sized;
      }
  Moves-IsSafe (Moves.job_ends s before after p elapsed r e ran) h =
      let (sized, rest) = All-split HasJobId before p after (rw e at h.running_sized) in
      let same = run_job-job_id c.frame abi_reader from_utf8 elapsed p r ran in
      record {
        results_read = h.results_read;
        sound = h.sound;
        seen_listed = h.seen_listed;
        running_sized = rest;
        finished_sized =
            All-append IdSized s.finished (r ∷ []) h.finished_sized
              (ap (λ (t : Bytes). length t) same ∙ sized, tt);
      }
  Moves-IsSafe (Moves.job_panics s before after p elapsed e ran) h = record {
    results_read = h.results_read;
    sound = h.sound;
    seen_listed = h.seen_listed;
    running_sized = (All-split HasJobId before p after (rw e at h.running_sized)).1;
    finished_sized = h.finished_sized;
  }
  Moves-IsSafe (Moves.listener_stores s r rest e) h =
      let sized = rw e at h.finished_sized in
      record {
        results_read = h.results_read;
        sound = IsSound-result c.frame s.processor r s.worker.local sized.0 h.sound;
        seen_listed = h.seen_listed;
        running_sized = h.running_sized;
        finished_sized = sized.1;
      }
  Moves-IsSafe (Moves.node_restarts s keys) h = started-IsSafe s keys h.sound.named

  pub Reachable-IsSafe :
      {s t : System}
      → Named c.frame s.worker.local
      → Reachable c abi_reader from_utf8 s t
      → IsSafe t
  Reachable-IsSafe {s} named (Reachable.start keys) = started-IsSafe s keys named
  Reachable-IsSafe named (Reachable.move r m) = Moves-IsSafe m (Reachable-IsSafe named r)

  abbrev IsOpen : System → Type 0
  IsOpen t = (call : Call) → t.worker.accepts call ≡ true

  -- The rest of a run that has read the lists ends well.
  abbrev pub EndsWell : System → Reading → Type 0
  EndsWell t r =
      (after_reading c r.job_key r.result_key (run_on c abi_reader from_utf8 r t.worker)).0 ≡ ok tt

  readings-EndsWell :
      (t : System) (readings : List Reading)
      → IsOpen t
      → All IsReadable readings
      → All (EndsWell t) readings
  readings-EndsWell t [] takes h = tt
  readings-EndsWell t (r ∷ readings) takes h =
      let (keys, sized, e) = h.0 in
      (
        rw e (
            after_reading-ok c keys sized (run_on c abi_reader from_utf8 r t.worker) r.job_key
              takes),
        readings-EndsWell t readings takes h.1,
      )

  -- In every state that the system comes to after a start of the node, by its steps in any order and
  -- with restarts and overlapping runs of the worker, no list has become unreadable: the monitor
  -- does not panic on the key list that it has read, and if the pool takes its calls, each run of
  -- the worker that has read the lists ends well, and so does a whole run. What runs and what has
  -- finished is for a job id of 32 bytes. The storage before the start has no payload that names
  -- another key than its own.
  pub never_panics :
      {s t : System}
      → Named c.frame s.worker.local
      → Reachable c abi_reader from_utf8 s t
      → ((db : Db) → t.read_in ≡ some db → (monitor_turn c.frame db t.worker.local).0 ≢ panic)
        × (((call : Call) → t.worker.accepts call ≡ true)
            → All (EndsWell t) t.readings × ((offchain_worker c t.worker).0 ≡ ok tt))
        × All HasJobId t.running
        × All IdSized t.finished
  never_panics {t = t} named r =
      let h = Reachable-IsSafe named r in
      (
        λ db e p.
            let l = h.seen_listed db e in
            ground (arith, monitor_turn_lem c.frame l.keys db t.worker.local l.sized l.text, p),
        λ takes. (
          readings-EndsWell t t.readings takes h.results_read,
          rw
              (worker_run c t.worker (listing h.sound.jobs.keys) (listing h.sound.results.keys)
                (h.sound.jobs.text, h.sound.results.text))
              (after_reading-ok c h.sound.results.keys h.sound.results.sized t.worker
                (listing h.sound.jobs.keys) takes),
        ),
        h.running_sized,
        h.finished_sized,
      )
