-- ===== src/Model.antt =====
-- The payloads that the runtime and the executor exchange through the offchain storage
-- (model/src/lib.rs).
use my_polkadot_orcale.Prelude.{ℕ, Bytes}

-- A key `sr25519::Public`, a hash `T::Hash`, an account and a dispatch origin are handles: the
-- program only compares them or hands them on.
abbrev pub Public : Type 0
Public = ℕ

abbrev pub Hash : Type 0
Hash = ℕ

abbrev pub AccountId : Type 0
AccountId = ℕ

abbrev pub Origin : Type 0
Origin = ℕ

pub data JobState : Type 0 where
  idling pending processing finish : JobState

pub record RequestPayload : Type 0 where
  pub job_id : Bytes
  pub job_content : Bytes
  pub content_abi : Bytes
  pub job_state : JobState

pub record ResponePayload : Type 0 where
  pub job_id : Bytes
  pub job_result : Bytes
  pub job_state : JobState
  pub address : Public
  pub exe_time : ℕ
