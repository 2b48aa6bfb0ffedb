-- ===== src/Wasmstore/Board/Origins.antt =====
-- Where the code of a job comes from.
use mathlib.Core.Option.{some-injective}
use my_polkadot_orcale.Prelude.{
  Bytes, ◌≡◌, ◌⊎◌, refl, sym, Option, none, some, arith, lookup, Eq, inl, inr, Bool-cases, ap, ◌==◌,
  bytes_eq, nat_eq, ◌∙◌, List,
}
use my_polkadot_orcale.Model.{Hash, AccountId}
use my_polkadot_orcale.Wasmstore.Types.{Config, State, ScriptDetail, OcwJob}
use my_polkadot_orcale.Wasmstore.Calls.{dispatch}
use my_polkadot_orcale.Wasmstore.Chain.{Step, called, next_block, Reach, here, next}
use my_polkadot_orcale.Wasmstore.Preserved.{genesis}
use my_polkadot_orcale.Wasmstore.Board.{Board, board, update, Acts}
use my_polkadot_orcale.Wasmstore.Board.Refines.{dispatch-Acts}

update-found :
    {K V : Type 0} ⦃e : Eq K⦄ (k j : K) (v x : V) (m : K → Option V)
    → update k v m j ≡ some x
    → ((k ≡ j) × (v ≡ x)) ⊎ (m j ≡ some x)
update-found ⦃e = eq⦄ k j v x m h = elim (Bool-cases (k == j)) [
  | inl e ↦ inl ((eq.beq_iff k j).0 e, some-injective _ _ (rw e at h))
  | inr e ↦ inr (rw e at h)
]

-- A job and a script, or two jobs, with the same code and interface.
abbrev SameCode : OcwJob → Bytes → Bytes → Type 0
SameCode job code abi = (job.wasm_code ≡ code) × (job.wasm_abi ≡ abi)

-- What the board had for a job before an act: the job, or a script with its code.
abbrev Before : Board → Hash → OcwJob → Type 0
Before b key job =
    ((old : OcwJob) × (b.jobs key ≡ some old) × SameCode job old.wasm_code old.wasm_abi)
    ⊎ ((k : Bytes) × (script : ScriptDetail) × (b.scripts k ≡ some script)
        × SameCode job script.wasm_code script.wasm_abi)

module _ (c : Config) where
  Before-same :
      (b t : Board) (key : Hash) (job : OcwJob)
      → t.jobs ≡ b.jobs
      → t.jobs key ≡ some job
      → Before b key job
  Before-same b t key job same e = inl (job, (rw same at e), (refl, refl))

  Acts-Before :
      (b t : Board) (key : Hash) (job : OcwJob)
      → Acts c b t
      → t.jobs key ≡ some job
      → Before b key job
  Acts-Before b t key job (Acts.stays same) e =
      Before-same b t key job (ap (λ (x : Board). x.jobs) same) e
  Acts-Before b t key job (Acts.publishes k script _ _ _ same) e =
      Before-same b t key job (ap (λ (x : Board). x.jobs) same) e
  Acts-Before b t key job (Acts.answers k pk j r _ _ _ same) e =
      Before-same b t key job (ap (λ (x : Board). x.jobs) same) e
  Acts-Before b t key job (Acts.queues k new sk script fresh stored code abi _ same) e =
      let at = ap (λ (x : Board). x.jobs key) (sym same) ∙ e in
      elim (update-found k key new job b.jobs at) [
        | inl is ↦ inr (sk, script, stored, (rw (← is.1) code, rw (← is.1) abi))
        | inr old ↦ inl (job, old, (refl, refl))
      ]
  Acts-Before b t key job (Acts.advances k old st there follows same) e =
      let at = ap (λ (x : Board). x.jobs key) (sym same) ∙ e in
      elim (update-found k key (record old { state = st }) job b.jobs at) [
        | inl is ↦ inl (old, rw is.0 at there, (rw (← is.1) refl, rw (← is.1) refl))
        | inr before ↦ inl (job, before, (refl, refl))
      ]

  -- A moment of the history at which a script with the job's code was published.
  pub record Published (first s : State) (job : OcwJob) : Type 0 where
    pub moment : State
    pub script_key : Bytes
    pub script : ScriptDetail
    pub reached : Reach c first moment
    pub went_on : Reach c moment s
    pub stored : lookup script_key moment.script_storage ≡ some script
    pub same_code : job.wasm_code ≡ script.wasm_code
    pub same_abi : job.wasm_abi ≡ script.wasm_abi

  Step-Before :
      {s t : State} (key : Hash) (job : OcwJob)
      → Step c s t
      → lookup key t.job_queue ≡ some job
      → Before (board s) key job
  Step-Before key job (called s call o) e =
      Acts-Before (board s) (board (dispatch c call o s).1) key job (dispatch-Acts c call o s) e
  Step-Before key job (next_block s) e = inl (job, e, (refl, refl))

  Reach-Published :
      {s t : State} (key : Hash) (job : OcwJob)
      → ((k : Hash) → lookup k s.job_queue ≡ none)
      → Reach c s t
      → lookup key t.job_queue ≡ some job
      → Published s t job
  Reach-Published key job empty here e = absurd (ground (arith, empty key, e))
  Reach-Published key job empty (next {t = u} r st) e = elim (Step-Before key job st e) [
    | inl (old, there, same) ↦
        let p = Reach-Published key old empty r there in
        record {
          moment = p.moment;
          script_key = p.script_key;
          script = p.script;
          reached = p.reached;
          went_on = next p.went_on st;
          stored = p.stored;
          same_code = same.0 ∙ p.same_code;
          same_abi = same.1 ∙ p.same_abi;
        }
    | inr (k, script, stored, same) ↦ record {
      moment = u;
      script_key = k;
      script = script;
      reached = r;
      went_on = next here st;
      stored = stored;
      same_code = same.0;
      same_abi = same.1;
    }
  ]

  -- Each job of a chain that began with an empty queue has the code and the interface that a
  -- published script had at an earlier moment, though the script may have been replaced since.
  pub job_code-Published :
      (collators : List AccountId) (s : State) (key : Hash) (job : OcwJob)
      → Reach c (genesis c collators) s
      → lookup key s.job_queue ≡ some job
      → Published (genesis c collators) s job
  job_code-Published collators s key job r e = Reach-Published key job (λ k. refl) r e
