-- ===== src/Node/Service/Failure.antt =====
-- What a start of the node that fails has not done.
use my_polkadot_orcale.Prelude.{
  ℕ, Bytes, Bool, true, false, Option, none, some, List, [], ◌∷◌, ◌≢◌, refl, ok, err, panic,
  Outcome, ◌>>◌, not, ◌&&◌, All, All-append,
}
use my_polkadot_orcale.Node.Startup.{Task, Step, Startup, perform, note, when}
use my_polkadot_orcale.Node.Service.{
  Configuration, HwBench, has_telemetry, new_partial, report_hwbench, start_consensus, start_tasks,
  start_parachain_node,
}

-- The steps before the executor's.
abbrev pub IsOther : Step → Type 0
IsOther s = s ≢ Step.run_executor

-- A part of a start that does not start the executor, whatever its outcome.
pub record Avoids (m : Startup (Unit {0})) : Type 0 where
  pub avoids : (trace : List Step) → All IsOther trace → All IsOther (m trace).1

pub note-Avoids : (s : Step) → IsOther s → Avoids (note s)
note-Avoids s other = record { avoids = λ trace h. All-append IsOther trace (s ∷ []) h (other, tt) }

pub perform-Avoids : (fails : Step → Option Bytes) (s : Step) → IsOther s → Avoids (perform fails s)
perform-Avoids fails s other = record {
  avoids = λ trace h. All-append IsOther trace (s ∷ []) h (other, tt);
}

pub when-Avoids : (b : Bool) (m : Startup (Unit {0})) → Avoids m → Avoids (when b m)
when-Avoids true m h = h
when-Avoids false m h = record { avoids = λ trace k. k }

pub then-Avoids : {m k : Startup (Unit {0})} → Avoids m → Avoids k → Avoids (m >> k)
then-Avoids {m} {k} h g = record {
  avoids = λ trace all. by_outcome (m trace).0 (m trace).1 (h.avoids trace all);
}
  where
    by_outcome :
        (r : Outcome Bytes (Unit {0})) (trace : List Step)
        → All IsOther trace
        → All IsOther (((λ _. (r, trace)) >> k) trace).1
    by_outcome (ok tt) trace all = g.avoids trace all
    by_outcome (err e) trace all = all
    by_outcome panic trace all = all

-- A part that has not started the executor where it does not succeed.
pub record FailsBefore (m : Startup (Unit {0})) : Type 0 where
  pub before :
      (trace : List Step) → All IsOther trace → (m trace).0 ≢ ok tt → All IsOther (m trace).1

pub then-FailsBefore : {m k : Startup (Unit {0})} → Avoids m → FailsBefore k → FailsBefore (m >> k)
then-FailsBefore {m} {k} h g = record {
  before = λ trace all. by_outcome (m trace).0 (m trace).1 (h.avoids trace all);
}
  where
    by_outcome :
        (r : Outcome Bytes (Unit {0})) (trace : List Step)
        → All IsOther trace
        → (((λ _. (r, trace)) >> k) trace).0 ≢ ok tt
        → All IsOther (((λ _. (r, trace)) >> k) trace).1
    by_outcome (ok tt) trace all failed = g.before trace all failed
    by_outcome (err e) trace all failed = all
    by_outcome panic trace all failed = all

module _ (fails : Step → Option Bytes) where
  pub partial-Avoids : (config : Configuration) → Avoids (new_partial fails config)
  unfolding new_partial
  partial-Avoids config =
      let telemetry = has_telemetry config.telemetry_endpoints in
      then-Avoids
        (when-Avoids telemetry _ (perform-Avoids fails Step.new_telemetry_worker (λ e. cc)))
        (then-Avoids (perform-Avoids fails _ (λ e. cc)) (
          then-Avoids (when-Avoids telemetry _ (note-Avoids (Step.spawn Task.telemetry) (λ e. cc)))
            (then-Avoids (note-Avoids _ (λ e. cc)) (note-Avoids _ (λ e. cc)))))

  hwbench-Avoids :
      (config : Configuration) (hwbench : Option HwBench) → Avoids (report_hwbench config hwbench)
  hwbench-Avoids config none = record { avoids = λ trace k. k }
  hwbench-Avoids config (some meets) = then-Avoids (note-Avoids Step.print_hwbench (λ e. cc)) (
      then-Avoids
        (when-Avoids (not meets && config.is_authority) _
          (note-Avoids Step.warn_hardware (λ e. cc)))
        (when-Avoids (has_telemetry config.telemetry_endpoints) _
          (note-Avoids (Step.spawn Task.telemetry_hwbench) (λ e. cc))))

  consensus-Avoids : (has_collator_key : Bool) → Avoids (start_consensus has_collator_key)
  consensus-Avoids true = note-Avoids (Step.spawn Task.aura) (λ e. cc)
  consensus-Avoids false = record { avoids = λ trace k. k }

  start_tasks-Avoids :
      (config : Configuration) (has_collator_key : Bool) (para_id : ℕ) (hwbench : Option HwBench)
      → Avoids (start_tasks fails config has_collator_key para_id hwbench)
  unfolding start_tasks
  start_tasks-Avoids config has_collator_key para_id hwbench =
      then-Avoids (note-Avoids _ (λ e. cc)) (
        then-Avoids (partial-Avoids config) (
          then-Avoids (perform-Avoids fails _ (λ e. cc)) (
            then-Avoids (perform-Avoids fails _ (λ e. cc)) (
              then-Avoids
                (when-Avoids config.offchain_worker_enabled _
                  (note-Avoids (Step.spawn Task.offchain_workers_runner) (λ e. cc)))
                (then-Avoids (perform-Avoids fails _ (λ e. cc)) (
                  then-Avoids (hwbench-Avoids config hwbench) (
                    then-Avoids (perform-Avoids fails _ (λ e. cc)) (
                      then-Avoids (perform-Avoids fails _ (λ e. cc)) (
                        when-Avoids config.is_authority _
                          (consensus-Avoids has_collator_key))))))))))

  pub start-FailsBefore :
      (config : Configuration) (has_collator_key : Bool) (para_id : ℕ) (hwbench : Option HwBench)
      → FailsBefore (start_parachain_node fails config has_collator_key para_id hwbench)
  unfolding start_parachain_node
  start-FailsBefore config has_collator_key para_id hwbench =
      then-FailsBefore (start_tasks-Avoids config has_collator_key para_id hwbench)
        (record { before = λ trace all failed. absurd (failed refl) })

  -- A start that ends in an error or a panic, at whatever step, has not started the executor.
  pub start-failure :
      (config : Configuration) (has_collator_key : Bool) (para_id : ℕ) (hwbench : Option HwBench)
      → let start = start_parachain_node fails config has_collator_key para_id hwbench [] in
        start.0 ≢ ok tt → All (λ s. s ≢ Step.run_executor) start.1
  start-failure config has_collator_key para_id hwbench failed =
      (start-FailsBefore config has_collator_key para_id hwbench).before [] tt failed
