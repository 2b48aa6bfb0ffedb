-- ===== src/System/Sound/Steps.antt =====
-- Each step of the system keeps the offchain storage sound: the start of the executor, a turn of
-- either of its tasks, and a run of the worker.
use Prim.Native.String.{String}
use my_polkadot_orcale.Prelude.{
  Bytes, ◌≡◌, refl, sym, some, arith, ok, err, panic, Outcome, List, [], ◌∷◌, ◌++◌, length, lookup,
  insert, bytes_eq, bytes_beq_iff, inl, inr, Bool-cases, ◌==◌, false, ap, ◌∙◌, All, All-append,
  flatten, codes,
}
use mathlib.Core.Option.{some-injective}
use my_polkadot_orcale.Model.{Public, Hash, RequestPayload}
use my_polkadot_orcale.Frame.{Frame}
use my_polkadot_orcale.Wasmstore.Types.{Config, OcwJob}
use my_polkadot_orcale.Wasmstore.Worker.{
  Worker, master_key, request_of, compare_and_set, default_request, after_reading,
}
use my_polkadot_orcale.Wasmstore.Run.Effect.{after_reading-Lists}
use my_polkadot_orcale.Node.Executor.{
  JobResult, Db, wasmstore_key_list, wasmstore_result_list, id_key, respone_of, result_listener,
  monitor_turn, note_key, get_processor_keypair, run_executor,
}
use my_polkadot_orcale.Node.Storage.{monitor_turn_lem, result_listener_state}
use my_polkadot_orcale.System.Sound.{
  listing, listing-append_one, ne_of_length, IsListed, IsListed-insert, IsListed-written, HasJobId,
  Named, IsSound, Named-insert_other, IsSound-insert, IsSound-payload, IsSound-jobs,
  IsSound-results,
}
use my_polkadot_orcale.System.Sound.Payloads.{taken-All}

module _ (f : Frame) where
  pub IsSound-start :
      (keys : List Public) (db : Db) → Named f db → IsSound f (run_executor f keys db).0
  unfolding run_executor flatten
  IsSound-start keys db named =
      let listed = insert wasmstore_key_list (codes "init") db in
      let lists : IsSound f (insert wasmstore_result_list (codes "init") listed) = record {
        jobs =
            IsListed-insert wasmstore_result_list (codes "init") wasmstore_key_list listed
              (ne_of_length _ _ (λ e. omega (arith, e)))
              (IsListed-written wasmstore_key_list [] db tt);
        results = IsListed-written wasmstore_result_list [] listed tt;
        named =
            Named-insert_other f wasmstore_result_list (codes "init") listed (λ e. omega (arith, e))
              (Named-insert_other f wasmstore_key_list (codes "init") db (λ e. omega (arith, e))
                named);
      } in
      noted keys lists
    where
      noted :
          (keys : List Public)
          → {d : Db} → IsSound f d
          → IsSound f (note_key f (get_processor_keypair keys) d).0
      noted [] l = l
      noted (k ∷ keys) {d} l =
          IsSound-insert f id_key (f.encode_public k) d (ne_of_length _ _ (λ e. omega (arith, e)))
            (ne_of_length _ _ (λ e. omega (arith, e)))
            (Named-insert_other f id_key (f.encode_public k) d (λ e. omega (arith, e)) l.named) l

  pub IsSound-result :
      (pk : Public) (r : JobResult) (db : Db)
      → length r.job_id ≡ 32
      → IsSound f db
      → IsSound f (result_listener f pk r db)
  IsSound-result pk r db sized s =
      let v = f.encode_respone (respone_of f pk r) in
      let keys = s.results.keys ++ r.job_id ∷ [] in
      let stored =
        IsSound-payload f r.job_id v db sized
          (λ p d. absurd (ground (arith, d, f.decode_request-finished (respone_of f pk r) refl)))
          s in
      rw
        (
          result_listener_state f pk r (listing s.results.keys) db
              (ne_of_length _ _ (λ e. omega (arith, e, sized))) s.results.text,
          ← listing-append_one s.results.keys r.job_id,
        )
        (IsSound-results f keys (insert r.job_id v db)
          (All-append _ s.results.keys (r.job_id ∷ []) s.results.sized (sized, tt)) stored)

  pub IsSound-monitor :
      (seen db : Db)
      → IsListed wasmstore_key_list seen
      → IsSound f db
      → IsSound f (monitor_turn f seen db).1
  unfolding flatten
  IsSound-monitor seen db l s =
      rw (monitor_turn_lem f l.keys seen db l.sized l.text) (IsSound-jobs f [] db tt s)

  pub taken-HasJobId :
      (seen db : Db) (jobs : List RequestPayload)
      → IsListed wasmstore_key_list seen
      → IsSound f db
      → (monitor_turn f seen db).0 ≡ ok jobs
      → All HasJobId jobs
  taken-HasJobId seen db jobs l s = taken-All f HasJobId seen db jobs l (λ k raw sized there p d.
      ap (λ (t : Bytes). length t) (s.named k raw sized there p d) ∙ sized)

module _ (c : Config) where
  IsSound-default :
      (db : Db)
      → IsSound c.frame db
      → IsSound c.frame (insert [] (c.encode_request default_request) db)
  IsSound-default db s =
      let v = c.encode_request default_request in
      IsSound-insert c.frame [] v db (λ e. cc) (λ e. cc)
        (Named-insert_other c.frame [] v db (λ e. omega (arith, e)) s.named) s

  -- What a run stores with a job, whatever the pool answered.
  IsSound-request :
      (id : Hash) (job : OcwJob) (answer : Outcome String (Unit {0})) (db : Db)
      → IsSound c.frame db
      → IsSound c.frame (
          insert
            (request_of c id job answer).job_id
            (c.encode_request (request_of c id job answer))
            db)
  IsSound-request id job (ok tt) db s =
      let p = request_of c id job (ok tt) in
      IsSound-payload c.frame (c.encode_hash id) (c.encode_request p) db (c.length-encode_hash id)
        (λ q e.
          ap (λ (t : RequestPayload). t.job_id)
            (some-injective _ _ (sym e ∙ c.decode-encode_request p)))
        s
  IsSound-request id job (err e) db s = IsSound-default db s
  IsSound-request id job panic db s = IsSound-default db s

  swapped :
      (key old new : Bytes) (db : Db)
      → lookup key db ≡ some old
      → compare_and_set key old new db ≡ insert key new db
  swapped key old new db e = ground (arith, bytes_beq_iff old old)

  not_swapped :
      (key old new v : Bytes) (db : Db)
      → lookup key db ≡ some v
      → (v == old) ≡ false
      → compare_and_set key old new db ≡ db
  not_swapped key old new v db e f = ground arith

  -- The key list grows only where it is still the one that was read.
  swapped-IsSound :
      (job_key : Bytes) (id : Hash) (db : Db)
      → IsSound c.frame db
      → IsSound c.frame (compare_and_set master_key job_key (job_key ++ c.encode_hash id) db)
  swapped-IsSound job_key id db s = elim (Bool-cases (listing s.jobs.keys == job_key)) [
    | inl e ↦
        let keys = s.jobs.keys ++ c.encode_hash id ∷ [] in
        let old : listing s.jobs.keys ≡ job_key = (bytes_beq_iff _ job_key).0 e in
        let list : job_key ++ c.encode_hash id ≡ listing keys =
          ap (λ (t : Bytes). t ++ c.encode_hash id) (sym old)
          ∙ sym (listing-append_one s.jobs.keys (c.encode_hash id)) in
        let stored : compare_and_set master_key job_key (job_key ++ c.encode_hash id) db
            ≡ insert master_key (listing keys) db =
          swapped master_key job_key (job_key ++ c.encode_hash id) db
            (s.jobs.text ∙ ap (λ (t : Bytes). some t) old)
          ∙ ap (λ (t : Bytes). insert master_key t db) list in
        rw stored (
          IsSound-jobs c.frame keys db
            (All-append _ s.jobs.keys (c.encode_hash id ∷ []) s.jobs.sized
              (c.length-encode_hash id, tt))
            s)
    | inr e ↦
        rw
          (not_swapped master_key job_key (job_key ++ c.encode_hash id) (listing s.jobs.keys) db
            s.jobs.text e)
          s
  ]

  pub IsSound-worker :
      (job_key result_key : Bytes) (w : Worker)
      → IsSound c.frame w.local
      → IsSound c.frame (after_reading c job_key result_key w).1.local
  IsSound-worker job_key result_key w s = elim (after_reading-Lists c job_key result_key w) [
    | inl e ↦ rw e s
    | inr l ↦ rw l.now (
        IsSound-request l.id l.job l.answer
          (compare_and_set master_key job_key (job_key ++ c.encode_hash l.id) w.local)
          (swapped-IsSound job_key l.id w.local s))
  ]
