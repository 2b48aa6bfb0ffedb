-- ===== src/Wasmstore/Types.antt =====
-- Storage, calls, events and errors of the wasmstore pallet (pallets/wasmstore-pallet/src/lib.rs).
use my_polkadot_orcale.Prelude.{ℕ, Bytes, Option, List, StoreMap, Exec, ◌++◌, ◌∷◌, []}
use my_polkadot_orcale.Model.{Hash, Public, AccountId, JobState}
use my_polkadot_orcale.Frame.{Frame, DispatchError}

-- `enum Type`; the name `Type` is a keyword here.
pub data ScriptType : Type 0 where
  executable source : ScriptType

pub record ScriptDetail : Type 0 where
  pub publisher : AccountId
  pub block_number : ℕ
  pub wasm_code : Bytes
  pub wasm_abi : Bytes
  pub hash : Hash
  pub name : Bytes
  pub typ : ScriptType
  pub ref_count : ℕ

pub record OcwJob : Type 0 where
  pub caller : AccountId
  pub script_name : Bytes
  pub wasm_code : Bytes
  pub wasm_abi : Bytes
  pub state : JobState

pub record SignedScriptResult : Type 0 where
  pub result_data : Bytes
  pub ext_time : ℕ

pub data Event : Type 0 where
  script_upload :
      (who : AccountId) (block_number size : ℕ) (script_name : Bytes) (hash_id : Hash) → Event
  request_execution :
      (job_id : Hash) (who : AccountId) (block_number : ℕ) (script_name : Bytes) → Event
  unsigned_tx : (at_block : ℕ) → Event
  test_event : (key : List AccountId) → Event

pub data Error : Type 0 where
  size_too_big hash_check_fail invalid_wasm_format not_owner : Error
  val_already_exist no_val_exist max_cap_reach invalid_operation : Error

-- `trait Config`: the constants, what comes from FRAME, `job.encode()`, and the order in which
-- `JobQueue::iter` visits the entries of the map.
pub record Config : Type 0 where
  pub max_script_size : ℕ
  pub max_script_storage_cap : ℕ
  pub max_script_key_len : ℕ
  pub max_string_size : ℕ
  pub max_result_size : ℕ
  pub max_result_submition : ℕ
  pub max_jobs : ℕ
  pub unsigned_priority : ℕ
  pub frame : Frame
  pub open frame use *
  pub encode_job : OcwJob → Bytes
  pub iter : StoreMap Hash OcwJob → StoreMap Hash OcwJob

-- The pallet's storage, with the block number and the events of frame_system, and the invulnerable
-- collators of pallet_collator_selection.
pub record State : Type 0 where
  pub script_storage : StoreMap Bytes ScriptDetail
  pub script_result : StoreMap (Hash × Public) SignedScriptResult
  pub job_queue : StoreMap Hash OcwJob
  pub block_number : ℕ
  pub events : List Event
  pub invulnerables : List AccountId

-- `#[pallet::call]`: what a transaction may ask for.
pub data Call : Type 0 where
  upload_wasm : (name : Bytes) (typ : ScriptType) (wasm_code script_abi : Bytes) → Call
  request_script_execution : (script_name : Bytes) (params : Option Bytes) → Call
  change_job_state : (block_number : ℕ) (key : Hash) → Call
  submit_result_unsiged :
      (block_number : ℕ) (key value : Bytes) (processor_pub : Public) (ext_time : ℕ) → Call
  get_collators_lts : Call

abbrev pub Dispatch : Type 0 → Type 0
Dispatch = Exec State (DispatchError Error)

unfoldable pub deposit_event : Event → State → State
deposit_event e s = record s { events = s.events ++ e ∷ [] }
