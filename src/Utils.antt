-- ===== src/Utils.antt =====
-- HTTP requests and API keys of offchain workers (offchain-utils/src/fetcher.rs and
-- offchain-utils/src/offchain_api_key.rs), and the worker that uses them
-- (pallets/offchain-worker/src/lib.rs).
use my_polkadot_orcale.Prelude.{
  ℕ, ◌+◌, Bytes, Option, none, some, List, [], ◌∷◌, ◌++◌, nat_beq, codes, StoreMap, lookup, insert,
  bytes_eq, Outcome, ok, err, panic, Exec, gets, modify, ok_or, expect, throw, ◌>>=◌, if◌then◌else◌,
}

pub record HttpRequest : Type 0 where
  pub url : Bytes
  pub headers : List (Bytes × Bytes)

abbrev pub new_request : Bytes → HttpRequest
new_request url = record { url = url; headers = [] }

abbrev pub add_header : HttpRequest → Bytes → Bytes → HttpRequest
add_header r key value = record r { headers = r.headers ++ (key, value) ∷ [] }

-- What comes of a request by its deadline: it is not sent, gets no response, or gets one.
pub data Reply : Type 0 where
  not_sent no_response : Reply
  response : (code : ℕ) (body : Bytes) → Reply

-- The messages of the errors.
pub data FetchError : Type 0 where
  failed_to_send no_response_received non_200 not_utf8 missing_key key_not_found : FetchError

-- What the worker reads and does: its local storage, the clock, the requests that it has sent with
-- their deadlines, the network, and UTF-8.
pub record Host : Type 0 where
  pub local : StoreMap Bytes Bytes
  pub timestamp : ℕ
  pub sent : List (HttpRequest × ℕ)
  pub network : HttpRequest → ℕ → Reply
  pub is_utf8 : Bytes → Option Bytes

abbrev pub body_of : Reply → Outcome FetchError Bytes
body_of not_sent = err failed_to_send
body_of no_response = err no_response_received
body_of (response code body) = if nat_beq code 200 then ok body else err non_200

unfoldable pub fetch : HttpRequest → Exec Host FetchError Bytes
fetch request h =
    let deadline = h.timestamp + 2000 in
    (body_of (h.network request deadline), record h { sent = h.sent ++ (request, deadline) ∷ [] })

unfoldable pub fetch_string : HttpRequest → Exec Host FetchError Bytes
unfolding fetch
fetch_string request = do
  bytes ← fetch request
  text ← gets (λ h. h.is_utf8 bytes)
  ok_or text not_utf8

-- A stored key that is no UTF-8 makes `expect("Invalid UTF-8")` panic.
abbrev pub decoded_key : Option Bytes → Exec Host FetchError Bytes
decoded_key none h = throw missing_key h
decoded_key (some raw) h = expect (h.is_utf8 raw) h

unfoldable pub fetch_api_key_for_request : Bytes → Exec Host FetchError Bytes
fetch_api_key_for_request key = do stored ← gets (λ h. lookup key h.local); decoded_key stored

unfoldable pub store_api_key : Bytes → Bytes → Exec Host FetchError (Unit {0})
store_api_key key value = modify (λ h. record h { local = insert key value h.local })

-- The request of the worker of pallets/offchain-worker.
abbrev pub worker_request : Bytes → HttpRequest
worker_request api_key =
    add_header (new_request (codes "https://postman-echo.com/basic-auth")) (codes "Authorization")
      api_key

-- An error only ends in the log; a panic ends the worker.
abbrev pub logged : {A : Type 0} → Exec Host FetchError A → Exec Host FetchError (Unit {0})
logged m h = keep (m h)
  where
    keep : {A : Type 0} → Outcome FetchError A × Host → Outcome FetchError (Unit {0}) × Host
    keep (ok a, h') = (ok tt, h')
    keep (err e, h') = (ok tt, h')
    keep (panic, h') = (panic, h')

unfoldable pub get_api_key : Exec Host FetchError Bytes
unfolding fetch_api_key_for_request
get_api_key h = found (fetch_api_key_for_request (codes "api_key") h)
  where
    found : Outcome FetchError Bytes × Host → Outcome FetchError Bytes × Host
    found (err e, h') = (err key_not_found, h')
    found r = r

-- With no key the worker returns at once.
unfoldable pub offchain_worker : Exec Host FetchError (Unit {0})
unfolding get_api_key fetch_string
offchain_worker = logged (get_api_key >>= λ key. logged (fetch_string (worker_request key)))
