-- ===== src/Wasmstore/Board.antt =====
-- What the wasmstore pallet promises, without its storage maps, origins, errors and events: a board
-- of published scripts, jobs and results, and the ways in which it may change.
pub mod Refines
pub mod Origins
use my_polkadot_orcale.Prelude.{
  Bytes, ◌≡◌, ◌≤◌, Option, none, some, length, StoreMap, lookup, Eq, ◌==◌, if◌then◌else◌, bytes_eq,
  nat_eq, pair_eq,
}
use my_polkadot_orcale.Model.{Hash, Public, JobState, pending, processing, finish}
use my_polkadot_orcale.Wasmstore.Types.{Config, State, ScriptDetail, OcwJob, SignedScriptResult}

pub record Board : Type 0 where
  pub scripts : Bytes → Option ScriptDetail
  pub jobs : Hash → Option OcwJob
  pub results : Hash × Public → Option SignedScriptResult

-- The board of a storage.
abbrev pub board : State → Board
board s = record {
  scripts = λ key. lookup key s.script_storage;
  jobs = λ key. lookup key s.job_queue;
  results = λ key. lookup key s.script_result;
}

abbrev pub update : {K V : Type 0} → ⦃e : Eq K⦄ → K → V → (K → Option V) → K → Option V
update k v m j = if k == j then some v else m j

-- The next state of a job's life.
pub data Follows : JobState → JobState → Type 0 where
  taken : Follows pending processing
  done : Follows processing finish
  over : (j : JobState) → Follows j j

-- One act on the board, or none.
pub data Acts (c : Config) (b t : Board) : Type 0 where
  stays : t ≡ b → Acts c b t
  -- a script within its bounds, under a key that may have had another one
  publishes :
      (key : Bytes) (script : ScriptDetail)
      → length script.wasm_code ≤ c.max_script_size
      → length script.wasm_abi ≤ c.max_script_size
      → length script.name ≤ c.max_string_size
      → t ≡ record b { scripts = update key script b.scripts }
      → Acts c b t
  -- a new job with the code of a published script
  queues :
      (key : Hash) (job : OcwJob) (script_key : Bytes) (script : ScriptDetail)
      → b.jobs key ≡ none
      → b.scripts script_key ≡ some script
      → job.wasm_code ≡ script.wasm_code
      → job.wasm_abi ≡ script.wasm_abi
      → job.state ≡ pending
      → t ≡ record b { jobs = update key job b.jobs }
      → Acts c b t
  -- a job one state on
  advances :
      (key : Hash) (job : OcwJob) (state : JobState)
      → b.jobs key ≡ some job
      → Follows job.state state
      → t ≡ record b { jobs = update key (record job { state = state }) b.jobs }
      → Acts c b t
  -- a result within its bound for a finished job
  answers :
      (key : Hash) (pk : Public) (job : OcwJob) (result : SignedScriptResult)
      → b.jobs key ≡ some job
      → job.state ≡ finish
      → length result.result_data ≤ c.max_result_size
      → t ≡ record b { results = update (key, pk) result b.results }
      → Acts c b t

pub data Course (c : Config) (b : Board) : Board → Type 0 where
  rest : Course c b b
  act : {t u : Board} → Course c b t → Acts c t u → Course c b u
