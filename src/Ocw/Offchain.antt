-- ===== src/Ocw/Offchain.antt =====
-- The offchain side of the ocw pallet: which transaction to send, and fetching a price.
use my_polkadot_orcale.Prelude.{
  ℕ, ◌+◌, ◌%◌, Bytes, Bool, Option, none, some, List, ltb, nat_beq, ◌==◌, bytes_eq, codes, StoreMap,
  contains_key, insert, u32_mod, Outcome, ok, err, Exec, gets, modify, ensure, ok_or, expect, ◌>>=◌,
  ◌>>◌, if◌then◌else◌,
}
use my_polkadot_orcale.Model.{Public}
use my_polkadot_orcale.Ocw.Types.{Config, State}
use my_polkadot_orcale.Ocw.Prices.{PricePayload}
use my_polkadot_orcale.Ocw.Unsigned.{Call}

pub data TransactionType : Type 0 where
  signed unsigned_for_any unsigned_for_all raw nothing : TransactionType

-- What the storage holds under `ocw-pallet::last_send`: nothing, a block, or bytes that are none.
pub data Retrieved : Type 0 where
  undecodable missing : Retrieved
  block : ℕ → Retrieved

-- The result of `StorageValueRef::mutate`: the closure failed, another worker wrote in between, or
-- the value is set.
pub data MutateResult : Type 0 where
  value_function_failed concurrent_modification : MutateResult
  written : ℕ → MutateResult

pub data HttpError : Type 0 where
  deadline_reached io_error unknown : HttpError

-- A reply to an HTTP request: not sent, too late, failed, or a code and a body.
pub data HttpReply : Type 0 where
  not_sent too_late : HttpReply
  failed : HttpError → HttpReply
  response : (status : ℕ) (body : Bytes) → HttpReply

-- `lite_json`'s value of a text: an object with its members, a number by the magnitude of its
-- integer part, or anything else.
mutual
  pub data JsonValue : Type 0 where
    object : Members → JsonValue
    number : ℕ → JsonValue
    other_value : JsonValue

  pub data Members : Type 0 where
    end : Members
    member : Bytes → JsonValue → Members → Members

-- The first member of that name.
unfoldable pub find_member : Bytes → Members → Option JsonValue
find_member name end = none
find_member name (member k v ms) = if k == name then some v else find_member name ms

-- `price.integer as u32` keeps the low 32 bits.
abbrev pub as_price : Option JsonValue → Option ℕ
as_price (some (number n)) = some (n % u32_mod)
as_price _ = none

abbrev pub price_of : Option JsonValue → Option ℕ
price_of (some (object ms)) = as_price (find_member (codes "length") ms)
price_of _ = none

-- The kind of transaction for a block in which the worker may send.
unfoldable pub type_for_block : ℕ → TransactionType
type_for_block block_number =
    if nat_beq (block_number % 3) 0
    then signed
    else if nat_beq (block_number % 3) 1
    then unsigned_for_any
    else if nat_beq (block_number % 3) 2
    then unsigned_for_all
    else raw

abbrev pub transaction_type : MutateResult → TransactionType
transaction_type (written block_number) = type_for_block block_number
transaction_type value_function_failed = nothing
transaction_type concurrent_modification = nothing

module _ {L : Type 0} (c : Config L) where
  -- The closure given to `mutate`: within the grace period of the last sending it fails.
  unfoldable pub next_send : ℕ → Retrieved → Option ℕ
  next_send block_number (block last) =
      if ltb block_number ((last + c.grace_period) % u32_mod) then none else some block_number
  next_send block_number _ = some block_number

  -- `mutate` is a parameter: it is handed the closure.
  unfoldable pub ocw_do_choose_transaction_type :
      ((Retrieved → Option ℕ) → MutateResult) → ℕ → TransactionType
  ocw_do_choose_transaction_type mutate block_number =
      transaction_type (mutate (next_send block_number))

  -- What a run of the worker sees and writes: the chain (discarded afterwards), the offchain
  -- storage, the calls that it has submitted, and whether the pool takes a call.
  pub record Env : Type 0 where
    pub chain : State L
    pub local : StoreMap Bytes Bytes
    pub submitted : List Call
    pub accepts : Call → Bool
    -- the network, the text of the storage key for a body, UTF-8 and JSON
    pub http_get : ℕ → HttpReply
    pub hash_key : Bytes → Bytes
    pub is_utf8 : Bytes → Bool
    pub parse_json : Bytes → Option JsonValue
    -- the local accounts that can sign, and their signatures
    pub accounts : List Public
    pub sign : PricePayload → Bytes
    pub accepts_signed : Public → ℕ → Bool
    pub sent_signed : List (Public × ℕ)

  abbrev pub reply_body : HttpReply → Outcome HttpError Bytes
  reply_body not_sent = err io_error
  reply_body too_late = err deadline_reached
  reply_body (failed e) = err e
  reply_body (response status body) = if nat_beq status 200 then ok body else err unknown

  unfoldable pub response_from_http_url : ℕ → Exec Env HttpError Bytes
  response_from_http_url time_to_live e = (reply_body (e.http_get time_to_live), e)

  unfoldable pub parse_data : (Bytes → Option JsonValue) → Bytes → Option ℕ
  unfolding find_member
  parse_data parse_json body = price_of (parse_json body)

  -- A body whose key is new is kept, with its hash on the chain's side.
  abbrev pub keep_body : Bytes → Bytes → Env → Env
  keep_body key body e = if contains_key key e.chain.hash_store then e else record e {
    local = insert key body e.local;
    chain = record e.chain { hash_store = insert key (c.hash body) e.chain.hash_store };
  }

  unfoldable pub fetch_data : Exec Env HttpError ℕ
  unfolding response_from_http_url parse_data
  fetch_data = do
    body ← response_from_http_url 5000
    utf8 ← gets (λ e. e.is_utf8 body)
    ensure utf8 unknown
    raw_key ← gets (λ e. e.hash_key body)
    key ← expect (c.try_from 256 raw_key)
    modify (keep_body key body)
    price ← gets (λ e. parse_data e.parse_json body)
    ok_or price unknown
