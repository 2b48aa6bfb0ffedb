-- ===== src/Frame.antt =====
-- What the pallets take from FRAME, from the SCALE codec and from Rust's formatting. None of this
-- code is in the repository: it is a parameter, with the documented facts that the proofs rely on.
use my_polkadot_orcale.Prelude.{
  ℕ, ◌≡◌, Bool, Option, some, none, List, [], ◌∷◌, ◌++◌, Bytes, length, leb, ltb, if◌then◌else◌,
}
use my_polkadot_orcale.Model.{
  Hash, Public, AccountId, Origin, RequestPayload, ResponePayload, finish,
}

pub record Frame : Type 0 where
  -- `ensure_signed`, `ensure_none` and `ensure_signed_or_root` of frame_system
  pub ensure_signed : Origin → Option AccountId
  pub ensure_none : Origin → Bool
  pub ensure_signed_or_root : Origin → Option (Option AccountId)
  -- `BoundedVec::try_from` and `BoundedVec::try_push`, the bound first
  pub try_from : ℕ → Bytes → Option Bytes
  pub try_push : ℕ → List ℕ → ℕ → Option (List ℕ)
  pub try_from_lem :
      (n : ℕ) (xs : Bytes) → try_from n xs ≡ (if leb (length xs) n then some xs else none)
  pub try_push_lem :
      (n : ℕ) (xs : List ℕ) (x : ℕ)
      → try_push n xs x ≡ (if ltb (length xs) n then some (xs ++ x ∷ []) else none)
  -- `T::Hashing::hash`
  pub hash : Bytes → Hash
  -- `encode` and `decode` of a hash and of a key: 32 bytes, read back as they were written
  pub encode_hash : Hash → Bytes
  pub decode_hash : Bytes → Option Hash
  pub length-encode_hash : (h : Hash) → length (encode_hash h) ≡ 32
  pub decode-encode_hash : (h : Hash) → decode_hash (encode_hash h) ≡ some h
  pub encode_public : Public → Bytes
  pub decode_public : Bytes → Option Public
  pub decode-encode_public : (p : Public) → decode_public (encode_public p) ≡ some p
  -- `format!("{:?}", text).encode()`, a text given by its UTF-8 bytes
  pub debug_encode : Bytes → Bytes
  -- the payloads of the model crate
  pub encode_request : RequestPayload → Bytes
  pub decode_request : Bytes → Option RequestPayload
  pub decode-encode_request : (p : RequestPayload) → decode_request (encode_request p) ≡ some p
  pub encode_respone : ResponePayload → Bytes
  pub decode_respone : Bytes → Option ResponePayload
  pub decode-encode_respone : (p : ResponePayload) → decode_respone (encode_respone p) ≡ some p
  -- A finished response is no request: its state, 3, stands where a request has the length of its
  -- interface, and announces a length of at least 2 ^ 30, more than the bytes that follow.
  pub decode_request-finished :
      (p : ResponePayload) → p.job_state ≡ finish → decode_request (encode_respone p) ≡ none

-- `TransactionValidity` of sp_runtime: the refusals that the pallets give, and a valid transaction
-- with the values that they set.
pub data InvalidTransaction : Type 0 where
  call future stale bad_proof : InvalidTransaction

pub record ValidTransaction : Type 0 where
  pub prefix : Bytes
  pub priority : ℕ
  pub provides : List ℕ
  pub longevity : ℕ
  pub propagate : Bool

pub data TransactionValidity : Type 0 where
  valid : ValidTransaction → TransactionValidity
  invalid : InvalidTransaction → TransactionValidity

-- An extrinsic fails with a bad origin or with an error of its pallet.
pub data DispatchError (E : Type 0) : Type 0 where
  bad_origin : DispatchError E
  pallet_error : E → DispatchError E
