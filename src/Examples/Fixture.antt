-- ===== src/Examples/Fixture.antt =====
-- A concrete host for the pallets: an encoding of 32 bytes for hashes and keys, encodings of the
-- payloads with their lengths in front, and a ledger of two functions.
use mathlib.Core.Option.{some-injective}
use my_polkadot_orcale.Prelude.{
  ℕ, zero, suc, ◌-◌, ◌≤◌, ◌≡◌, refl, ap, foldl, ◌+◌, ◌*◌, Bytes, Option, none, some, true, StoreMap,
  lookup, remove, All, nat_eq, [], ◌∷◌, ◌++◌, length, take, drop, take-append, drop-append, leb,
  leb→le, Bool-cases, inl, inr, ltb, nat_beq, min, if◌then◌else◌, arith,
}
use my_polkadot_orcale.Model.{
  Hash, AccountId, JobState, idling, pending, processing, finish, RequestPayload, ResponePayload,
}
use my_polkadot_orcale.Frame.{Frame}
use my_polkadot_orcale.Wasmstore.Types as Wasmstore
use my_polkadot_orcale.Wasmstore.Types.{OcwJob}
use my_polkadot_orcale.Ocw.Types as Ocw
use my_polkadot_orcale.Runtime.{wasmstore_config, ocw_config}
use my_polkadot_orcale.Ocw.Types.{Balances}

abbrev pub zeros : ℕ → Bytes
zeros zero = []
zeros (suc n) = 0 ∷ zeros n

abbrev pub head : Bytes → Option ℕ
head [] = none
head (x ∷ xs) = some x

abbrev pub state_code : JobState → ℕ
state_code idling = 0
state_code pending = 1
state_code processing = 2
state_code finish = 3

abbrev pub state_of : ℕ → JobState
state_of n =
    if nat_beq n 0
    then idling
    else if nat_beq n 1
    then pending
    else if nat_beq n 2
    then processing
    else finish

state_of-state_code : (j : JobState) → state_of (state_code j) ≡ j
state_of-state_code idling = refl
state_of-state_code pending = refl
state_of-state_code processing = refl
state_of-state_code finish = refl

abbrev pub put_request : RequestPayload → Bytes
put_request p =
    length p.job_id
    ∷ length p.job_content
    ∷ state_code p.job_state
    ∷ (p.job_id ++ (p.job_content ++ p.content_abi))

abbrev pub get_request : Bytes → Option RequestPayload
get_request (n ∷ k ∷ st ∷ rest) =
    if leb st 3
    then some (record {
      job_id = take n rest;
      job_content = take k (drop n rest);
      content_abi = drop k (drop n rest);
      job_state = state_of st;
    })
    else none
get_request _ = none

state_code-le : (j : JobState) → leb (state_code j) 3 ≡ true
state_code-le idling = refl
state_code-le pending = refl
state_code-le processing = refl
state_code-le finish = refl

pub get_request-put_request : (p : RequestPayload) → get_request (put_request p) ≡ some p
get_request-put_request p =
    let rest = p.job_content ++ p.content_abi in
    rw (state_code-le p.job_state) (
      rw (take-append p.job_id rest) (
        rw (drop-append p.job_id rest) (
          rw (take-append p.job_content p.content_abi) (
            rw (drop-append p.job_content p.content_abi) (
              ap (λ (j : JobState). some (record p { job_state = j }))
                (state_of-state_code p.job_state))))))

-- The third number of a response is greater than that of any request.
abbrev pub put_respone : ResponePayload → Bytes
put_respone p =
    length p.job_id
    ∷ p.address
    ∷ (p.exe_time + 4)
    ∷ (p.job_id ++ (state_code p.job_state ∷ p.job_result))

abbrev pub respone_from : Bytes → ℕ → ℕ → Bytes → Option ResponePayload
respone_from job_id pk t [] = none
respone_from job_id pk t (st ∷ result) = some (record {
  job_id = job_id;
  job_result = result;
  job_state = state_of st;
  address = pk;
  exe_time = t;
})

abbrev pub get_respone : Bytes → Option ResponePayload
get_respone (n ∷ pk ∷ t ∷ rest) = respone_from (take n rest) pk (t - 4) (drop n rest)
get_respone _ = none

pub get_respone-put_respone : (p : ResponePayload) → get_respone (put_respone p) ≡ some p
get_respone-put_respone p =
    let rest = state_code p.job_state ∷ p.job_result in
    let time : p.exe_time + 4 - 4 ≡ p.exe_time = omega arith in
    rw (time, take-append p.job_id rest)
      (rw (drop-append p.job_id rest) (
        ap (λ (j : JobState). some (record p { job_state = j })) (state_of-state_code p.job_state)))

pub get_request-put_respone : (p : ResponePayload) → get_request (put_respone p) ≡ none
get_request-put_respone p = ground arith

-- Origins: zero is unsigned, one is root, and any other is signed by the account of that number.
abbrev pub host : Frame
host = record {
  ensure_signed = λ o. if ltb 1 o then some o else none;
  ensure_none = λ o. nat_beq o 0;
  ensure_signed_or_root =
      λ o. if ltb 1 o then some (some o) else if nat_beq o 1 then some none else none;
  try_from = λ n xs. if leb (length xs) n then some xs else none;
  try_push = λ n xs x. if ltb (length xs) n then some (xs ++ x ∷ []) else none;
  try_from_lem = λ n xs. refl;
  try_push_lem = λ n xs x. refl;
  hash = foldl (λ a b. a * 31 + b + 1) 1;
  encode_hash = λ h. h ∷ zeros 31;
  decode_hash = head;
  length-encode_hash = λ h. refl;
  decode-encode_hash = λ h. refl;
  encode_public = λ h. h ∷ zeros 31;
  decode_public = head;
  decode-encode_public = λ h. refl;
  debug_encode = λ s. 4 * (length s + 2) ∷ 34 ∷ (s ++ 34 ∷ []);
  encode_request = put_request;
  decode_request = get_request;
  decode-encode_request = get_request-put_request;
  encode_respone = put_respone;
  decode_respone = get_respone;
  decode-encode_respone = get_respone-put_respone;
  decode_request-finished = λ p e. get_request-put_respone p;
}

abbrev pub put_job : OcwJob → Bytes
put_job job =
    job.caller
    ∷ state_code job.state
    ∷ length job.script_name
    ∷ (job.script_name ++ (job.wasm_code ++ job.wasm_abi))

-- The entries of a map, each key once.
abbrev pub distinct : StoreMap Hash OcwJob → StoreMap Hash OcwJob
distinct [] = []
distinct ((k, v) ∷ m) = (k, v) ∷ remove k (distinct m)

All-remove :
    (k : Hash) (v : OcwJob) (m d : StoreMap Hash OcwJob)
    → All (λ x. lookup x.0 m ≡ some x.1) d
    → All (λ x. lookup x.0 ((k, v) ∷ m) ≡ some x.1) (remove k d)
All-remove k v m [] h = tt
All-remove k v m ((j, w) ∷ d) h = elim (Bool-cases (nat_beq j k)) [
  | inl e ↦ rw e (All-remove k v m d h.1)
  | inr e ↦ rw e (ground (arith, e, h.0), All-remove k v m d h.1)
]

pub distinct-stored : (m : StoreMap Hash OcwJob) → All (λ x. lookup x.0 m ≡ some x.1) (distinct m)
distinct-stored [] = tt
distinct-stored ((k, v) ∷ m) = (ground arith, All-remove k v m (distinct m) (distinct-stored m))

abbrev pub wasmstore : Wasmstore.Config
wasmstore = wasmstore_config host put_job distinct

-- The ledger: the free and the reserved balance of each account.
abbrev pub Ledger : Type 0
Ledger = (AccountId → ℕ) × (AccountId → ℕ)

abbrev pub put : (AccountId → ℕ) → AccountId → ℕ → AccountId → ℕ
put f a n b = if nat_beq a b then n else f b

abbrev pub ledger_reserve : Ledger → AccountId → ℕ → Option Ledger
ledger_reserve l a n =
    if leb n (l.0 a) then some (put l.0 a (l.0 a - n), put l.1 a (l.1 a + n)) else none

abbrev pub ledger_unreserve : Ledger → AccountId → ℕ → Ledger
ledger_unreserve l a n = (put l.0 a (l.0 a + min n (l.1 a)), put l.1 a (l.1 a - n))

abbrev pub ledger_slash : Ledger → AccountId → ℕ → ℕ × ℕ × Ledger
ledger_slash l a n = (min n (l.1 a), n - l.1 a, (l.0, put l.1 a (l.1 a - n)))

abbrev pub ledger_pay : Ledger → AccountId → ℕ → Ledger
ledger_pay l a n = (put l.0 a (l.0 a + n), l.1)

pub put_self : (f : AccountId → ℕ) (a : AccountId) (n : ℕ) → put f a n a ≡ n
put_self f a n = ground arith

pub reserve_law :
    (l l' : Ledger) (a : AccountId) (n : ℕ)
    → ledger_reserve l a n ≡ some l'
    → (n ≤ l.0 a) × (l'.0 a ≡ l.0 a - n) × (l'.1 a ≡ l.1 a + n)
reserve_law l l' a n h = elim (Bool-cases (leb n (l.0 a))) [
  | inl e ↦
      let is : (put l.0 a (l.0 a - n), put l.1 a (l.1 a + n)) ≡ l' =
        some-injective _ _ (rw e at h) in
      rw (← is) (leb→le _ _ e, put_self l.0 a _, put_self l.1 a _)
  | inr e ↦ absurd (ground arith)
]

abbrev pub balances : Balances Ledger
balances = record {
  free_balance = λ l a. l.0 a;
  reserved_balance = λ l a. l.1 a;
  minimum_balance = 1;
  reserve = ledger_reserve;
  unreserve = ledger_unreserve;
  slash_reserved = ledger_slash;
  resolve_creating = ledger_pay;
  make_free_balance_be = λ l a n. (put l.0 a n, l.1);
  reserve_lem = reserve_law;
  unreserve_lem = λ l a n. (put_self l.0 a _, put_self l.1 a _);
  slash_reserved_lem = λ l a n. (refl, refl, put_self l.1 a _, λ b. refl);
  resolve_creating_lem = λ l a n h. (put_self l.0 a _, λ b. refl);
  make_free_balance_be_lem = λ l a n h. put_self l.0 a _;
}

abbrev pub ocw : Ocw.Config Ledger
ocw = ocw_config 1000 host balances
