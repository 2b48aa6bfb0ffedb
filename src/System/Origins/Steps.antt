-- ===== src/System/Origins/Steps.antt =====
-- Each step of the system keeps what is stored, what runs and what has finished traced.
use my_polkadot_orcale.Prelude.{
  Bytes, ◌≡◌, Option, some, arith, ok, List, [], ◌∷◌, lookup, nat_eq, bytes_eq, All-append,
  All-IsIn, refl,
}
use my_polkadot_orcale.Model.{Public}
use my_polkadot_orcale.Wasmstore.Types.{Config}
use my_polkadot_orcale.Wasmstore.Worker.{request_of}
use my_polkadot_orcale.Wasmstore.Jobs.{Keeps-trans, Continues-refl}
use my_polkadot_orcale.Wasmstore.Chain.{Step-Keeps}
use my_polkadot_orcale.Node.Executor.{Db}
use my_polkadot_orcale.System.{System, Moves, started}
use my_polkadot_orcale.System.Sound.{Stored, Each, ne_of_length}
use my_polkadot_orcale.System.Sound.Payloads.{
  Stored-start, Stored-result, Stored-monitor, Stored-worker, taken-All,
}
use my_polkadot_orcale.System.Safe.{IsSafe, All-split}
use my_polkadot_orcale.System.Origins.{
  VisitsStored, All-map, Ordered, Ordered-Keeps, Answered, Answered-Keeps, Written, Written-Keeps,
  Written-Reads, requested, answered, IsEarlier, IsTraced, processor_of, Restarts,
  run_executor-processor_of,
}

module _ (c : Config) (abi_reader : Bytes → Bytes → Option Bytes) (from_utf8 : Bytes → Option Bytes)
    (Q : Public → Type 0) where
  pub started-IsTraced :
      (old : Db) (s : System) (keys : List Public)
      → Stored (Written c abi_reader from_utf8 Q old s.worker.chain) s.worker.local
      → Q (processor_of keys)
      → IsTraced c abi_reader from_utf8 Q old (started c abi_reader from_utf8 keys s)
  started-IsTraced old s keys h q = record {
    processor = run_executor-processor_of c abi_reader from_utf8 Q keys s.worker.local q;
    stored =
        Stored-start c.frame (Written c abi_reader from_utf8 Q old s.worker.chain) keys
          s.worker.local h;
    earlier = tt;
    running = tt;
    finished = tt;
  }

  pub Moves-IsTraced :
      (old : Db) {s t : System}
      → VisitsStored c
      → Each c.frame (λ k p. ⊥) old
      → (m : Moves c abi_reader from_utf8 s t) → Restarts c abi_reader from_utf8 Q m
      → IsSafe c abi_reader from_utf8 s
      → IsTraced c abi_reader from_utf8 Q old s
      → IsTraced c abi_reader from_utf8 Q old t
  Moves-IsTraced old visits none_left (Moves.chain_moves s t st) q safe h =
      let keep = Step-Keeps c st in
      record {
        processor = h.processor;
        earlier =
            All-map _ _ (λ r before. Keeps-trans r.seen_chain s.worker.chain t before keep)
              s.readings h.earlier;
        stored = λ k raw sized there.
            Written-Keeps c abi_reader from_utf8 Q {s = s.worker.chain} {t = t} keep k raw
              (h.stored k raw sized there);
        running =
            All-map _ _ (Ordered-Keeps c {s = s.worker.chain} {t = t} keep) s.running h.running;
        finished =
            All-map _ _ (Answered-Keeps c abi_reader from_utf8 {s = s.worker.chain} {t = t} keep)
              s.finished h.finished;
      }
  Moves-IsTraced old visits none_left (Moves.pool_moves s accepts) q safe h = record {
    processor = h.processor;
    earlier = h.earlier;
    stored = h.stored;
    running = h.running;
    finished = h.finished;
  }
  Moves-IsTraced old visits none_left (Moves.worker_reads s job_key result_key there e) q safe h =
      record {
        processor = h.processor;
        earlier = ((λ key job e'. (job, e', Continues-refl job)), h.earlier);
        stored = h.stored;
        running = h.running;
        finished = h.finished;
      }
  Moves-IsTraced old visits none_left (Moves.worker_writes s before after' r e) q safe h =
      let (keep, others) =
        All-split (IsEarlier c abi_reader from_utf8 Q s.worker.chain) before r after'
          (rw e at h.earlier) in
      record {
        processor = h.processor;
        earlier = others;
        stored =
            Stored-worker c (Written c abi_reader from_utf8 Q old s.worker.chain) r.job_key
              r.result_key (record s.worker { chain = r.seen_chain })
              (λ id job at.
                requested (request_of c id job (ok tt))
                  (Ordered-Keeps c {s = r.seen_chain} {t = s.worker.chain} keep
                    (request_of c id job (ok tt))
                    (record {
                      id = id;
                      job = job;
                      queued =
                          All-IsIn (λ x. lookup x.0 r.seen_chain.job_queue ≡ some x.1) (id, job)
                            (c.iter r.seen_chain.job_queue) (visits r.seen_chain.job_queue) at;
                      same_id = refl;
                      same_code = refl;
                      same_abi = refl;
                    }))
                  refl)
              h.stored;
        running = h.running;
        finished = h.finished;
      }
  Moves-IsTraced old visits none_left (Moves.monitor_reads s e) q safe h = record {
    processor = h.processor;
    earlier = h.earlier;
    stored = h.stored;
    running = h.running;
    finished = h.finished;
  }
  Moves-IsTraced old visits none_left (Moves.monitor_writes s seen jobs e done) q safe h =
      let l = safe.seen_listed seen e in
      record {
        processor = h.processor;
        earlier = h.earlier;
        stored =
            Stored-monitor c.frame (Written c abi_reader from_utf8 Q old s.worker.chain) seen
              s.worker.local l h.stored;
        running = All-append (Ordered c s.worker.chain) s.running jobs h.running (
            taken-All c.frame (Ordered c s.worker.chain) seen s.worker.local jobs l
              (λ k raw sized there.
                Written-Reads c abi_reader from_utf8 Q k raw (λ left. none_left k raw sized left)
                  (h.stored k raw sized there))
              done);
        finished = h.finished;
      }
  Moves-IsTraced old visits none_left (Moves.job_ends s before after p elapsed r e ran) q safe h =
      let (ordered, rest) =
        All-split (Ordered c s.worker.chain) before p after (rw e at h.running) in
      record {
        processor = h.processor;
        earlier = h.earlier;
        stored = h.stored;
        running = rest;
        finished =
            All-append (Answered c abi_reader from_utf8 s.worker.chain) s.finished (r ∷ [])
              h.finished
              (record { request = p; ordered = ordered; elapsed = elapsed; ran = ran }, tt);
      }
  Moves-IsTraced old visits none_left (Moves.job_panics s before after p elapsed e ran) q safe h =
      record {
        processor = h.processor;
        earlier = h.earlier;
        stored = h.stored;
        running = (All-split (Ordered c s.worker.chain) before p after (rw e at h.running)).1;
        finished = h.finished;
      }
  Moves-IsTraced old visits none_left (Moves.listener_stores s r rest e) q safe h =
      let sized = rw e at safe.finished_sized in
      record {
        processor = h.processor;
        earlier = h.earlier;
        stored =
            Stored-result c.frame (Written c abi_reader from_utf8 Q old s.worker.chain) s.processor
              r _ s.worker.local (ne_of_length _ _ (λ e. omega (arith, e, sized.0)))
              safe.sound.results.text
              (answered r s.processor (rw e at h.finished).0 h.processor refl) h.stored;
        running = h.running;
        finished = (rw e at h.finished).1;
      }
  Moves-IsTraced old visits none_left (Moves.node_restarts s keys) q safe h =
      started-IsTraced old s keys h.stored q
