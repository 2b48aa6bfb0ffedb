-- ===== src/Script/Https.antt =====
-- The request that fetches a script's data (script-executor/src/https.rs). reqwest is a parameter.
use my_polkadot_orcale.Prelude.{
  Bytes, Bool, Option, none, some, List, [], ◌∷◌, codes, insert, bytes_eq, StoreMap, Outcome, ok,
  err, panic, if◌then◌else◌,
}

pub record Request : Type 0 where
  pub url : Bytes
  pub headers : StoreMap Bytes Bytes
  pub query : List (Bytes × Bytes)

-- The header that a name stands for, which values a header may have, and the text that a request is
-- answered with.
pub record HttpClient : Type 0 where
  pub parse_header_name : Bytes → Option Bytes
  pub is_header_value : Bytes → Bool
  pub send_for_text : Request → Option Bytes

module _ (h : HttpClient) where
  -- `key.parse().unwrap()` and `HeaderValue::from_str(&val).unwrap()`: `none` is a panic.
  abbrev pub add_headers :
      StoreMap Bytes Bytes → List (Bytes × Bytes) → Option (StoreMap Bytes Bytes)
  add_headers headers [] = some headers
  add_headers headers ((key, val) ∷ extra) = elim (h.parse_header_name key) [
    | none ↦ none
    | some name ↦
        let rest = add_headers (insert name val headers) extra in
        if h.is_header_value val then rest else none
  ]

  abbrev pub or_empty : Option (List (Bytes × Bytes)) → List (Bytes × Bytes)
  or_empty none = []
  or_empty (some xs) = xs

  -- `req.send().await?` and `res.text().await?`
  abbrev pub answer : Option Bytes → Outcome (Unit {0}) Bytes
  answer none = err tt
  answer (some body) = ok body

  unfoldable pub fetch_with_query :
      Bytes
      → Option (List (Bytes × Bytes))
      → Option (List (Bytes × Bytes))
      → Outcome (Unit {0}) Bytes
  fetch_with_query url params extra_headers =
      elim (add_headers ((codes "user-agent", codes "MyRustClient/0.1") ∷ [])
        (or_empty extra_headers)) [
          | none ↦ panic
          | some headers ↦
              answer
                (h.send_for_text (record { url = url; headers = headers; query = or_empty params }))
        ]
