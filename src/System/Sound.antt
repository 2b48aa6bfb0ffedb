-- ===== src/System/Sound.antt =====
-- The offchain storage as the worker and the executor need it: both lists are `init` with whole
-- keys behind it, and a payload names the key that it is stored under.
pub mod Payloads
pub mod Steps
use Prim.Native.String.{String}
use my_polkadot_orcale.Prelude.{
  Bytes, ◌≡◌, ◌≢◌, refl, sym, Option, none, some, arith, ok, err, panic, Outcome, List, [], ◌∷◌,
  ◌++◌, length, lookup, insert, bytes_eq, bytes_beq, bytes_beq_iff, lookup-insert,
  lookup-insert_self, Bool-cases, inl, inr, ap, subst, ◌∙◌, All, All-append, HaveLength, flatten,
  codes,
}
use mathlib.Core.Option.{some-injective}
use mathlib.Core.List.{append-nil}
use my_polkadot_orcale.Model.{Public, Hash, RequestPayload}
use my_polkadot_orcale.Frame.{Frame}
use my_polkadot_orcale.Wasmstore.Types.{Config, OcwJob}
use my_polkadot_orcale.Wasmstore.Worker.{
  Worker, master_key, init_value, request_of, compare_and_set, default_request, offchain_worker,
}
use my_polkadot_orcale.Node.Executor.{
  JobResult, Db, wasmstore_key_list, wasmstore_result_list, id_key, respone_of, result_listener,
  monitor_turn, note_key, get_processor_keypair, StorageError, request_at, assigned_jobs,
  run_executor,
}
use my_polkadot_orcale.Node.Storage.{monitor_turn_lem, result_listener_state}

-- The text of a list with these keys.
abbrev pub listing : List Bytes → Bytes
listing keys = init_value ++ flatten keys

append_assoc : (xs ys zs : Bytes) → (xs ++ ys) ++ zs ≡ xs ++ (ys ++ zs)
append_assoc [] ys zs = refl
append_assoc (x ∷ xs) ys zs = ap (λ (t : Bytes). x ∷ t) (append_assoc xs ys zs)

flatten-append_one : (keys : List Bytes) (k : Bytes) → flatten (keys ++ k ∷ []) ≡ flatten keys ++ k
unfolding flatten
flatten-append_one [] k = append-nil k
flatten-append_one (x ∷ keys) k =
    ap (λ (t : Bytes). x ++ t) (flatten-append_one keys k) ∙ sym (append_assoc x (flatten keys) k)

pub listing-append_one :
    (keys : List Bytes) (k : Bytes) → listing (keys ++ k ∷ []) ≡ listing keys ++ k
listing-append_one keys k = ap (λ (t : Bytes). init_value ++ t) (flatten-append_one keys k)

-- A list of whole keys under a key of the storage.
pub record IsListed (at : Bytes) (db : Db) : Type 0 where
  pub keys : List Bytes
  pub sized : HaveLength 32 keys
  pub text : lookup at db ≡ some (listing keys)

pub ne_of_length : (a b : Bytes) → length a ≢ length b → a ≢ b
ne_of_length a b h e = h (ap (λ (t : Bytes). length t) e)

lookup-insert_other :
    (k j : Bytes) (v : Bytes) (db : Db) → k ≢ j → lookup j (insert k v db) ≡ lookup j db
lookup-insert_other k j v db ne = ground (arith, lookup-insert k j v db, bytes_beq_iff k j)

-- Another key's value leaves the list, and a longer list is one.
pub IsListed-insert :
    (k v at : Bytes) (db : Db) → k ≢ at → IsListed at db → IsListed at (insert k v db)
IsListed-insert k v at db ne l = record {
  keys = l.keys;
  sized = l.sized;
  text = lookup-insert_other k at v db ne ∙ l.text;
}

pub IsListed-written :
    (at : Bytes) (keys : List Bytes) (db : Db)
    → HaveLength 32 keys
    → IsListed at (insert at (listing keys) db)
IsListed-written at keys db h = record {
  keys = keys;
  sized = h;
  text = lookup-insert_self at (listing keys) db;
}

-- A request with a whole id.
abbrev pub HasJobId : RequestPayload → Type 0
HasJobId p = length p.job_id ≡ 32

-- What holds of each value that is stored under a whole key.
abbrev pub Stored : (Bytes → Bytes → Type 0) → Db → Type 0
Stored R db = (k raw : Bytes) → length k ≡ 32 → lookup k db ≡ some raw → R k raw

pub Stored-insert :
    (R : Bytes → Bytes → Type 0) (k v : Bytes) (db : Db)
    → (length k ≡ 32 → R k v)
    → Stored R db
    → Stored R (insert k v db)
Stored-insert R k v db new old j raw sized there = elim (Bool-cases (bytes_beq k j)) [
  | inl e ↦
      let same : k ≡ j = (bytes_beq_iff k j).0 e in
      let value : v ≡ raw = some-injective _ _ (
        sym (lookup-insert_self k v db)
        ∙ ap (λ (t : Bytes). lookup t (insert k v db)) same
        ∙ there) in
      subst (λ t. R t raw) same
        (subst (λ t. R k t) value (new (ap (λ (t : Bytes). length t) same ∙ sized)))
  | inr e ↦
      old j raw sized
        (sym (lookup-insert_other k j v db (λ same. ground (arith, bytes_beq_iff k j))) ∙ there)
]

-- The value of a key that is no hash's says nothing about them.
pub Stored-insert_other :
    (R : Bytes → Bytes → Type 0) (k v : Bytes) (db : Db)
    → length k ≢ 32
    → Stored R db
    → Stored R (insert k v db)
Stored-insert_other R k v db ne = Stored-insert R k v db (λ e. absurd (ne e))

module _ (f : Frame) where
  -- What a value says of the request that it decodes to.
  abbrev pub Reads : (Bytes → RequestPayload → Type 0) → Bytes → Bytes → Type 0
  Reads Q k raw = (p : RequestPayload) → f.decode_request raw ≡ some p → Q k p

  -- What holds of each request that is stored under a whole key.
  abbrev pub Each : (Bytes → RequestPayload → Type 0) → Db → Type 0
  Each Q = Stored (Reads Q)

  pub Reads-encode :
      (Q : Bytes → RequestPayload → Type 0) (k : Bytes) (p : RequestPayload)
      → Q k p
      → Reads Q k (f.encode_request p)
  Reads-encode Q k p q p' d =
      subst (λ t. Q k t) (some-injective _ _ (sym (f.decode-encode_request p) ∙ d)) q

  abbrev pub Named : Db → Type 0
  Named = Each (λ k p. p.job_id ≡ k)

  pub record IsSound (db : Db) : Type 0 where
    pub jobs : IsListed wasmstore_key_list db
    pub results : IsListed wasmstore_result_list db
    pub named : Named db

  pub Named-insert :
      (k v : Bytes) (db : Db)
      → ((p : RequestPayload) → length k ≡ 32 → f.decode_request v ≡ some p → p.job_id ≡ k)
      → Named db
      → Named (insert k v db)
  Named-insert k v db new =
      Stored-insert (Reads (λ k p. p.job_id ≡ k)) k v db (λ sized p. new p sized)

  pub Named-insert_other :
      (k v : Bytes) (db : Db) → length k ≢ 32 → Named db → Named (insert k v db)
  Named-insert_other = Stored-insert_other (Reads (λ k p. p.job_id ≡ k))

  -- A value under a key that is none of the lists'.
  pub IsSound-insert :
      (k v : Bytes) (db : Db)
      → k ≢ wasmstore_key_list
      → k ≢ wasmstore_result_list
      → Named (insert k v db)
      → IsSound db
      → IsSound (insert k v db)
  IsSound-insert k v db ne ne' named s = record {
    jobs = IsListed-insert k v wasmstore_key_list db ne s.jobs;
    results = IsListed-insert k v wasmstore_result_list db ne' s.results;
    named = named;
  }

  -- A value under a job's key leaves both lists.
  pub IsSound-payload :
      (k v : Bytes) (db : Db)
      → length k ≡ 32
      → ((p : RequestPayload) → f.decode_request v ≡ some p → p.job_id ≡ k)
      → IsSound db
      → IsSound (insert k v db)
  IsSound-payload k v db sized new s =
      IsSound-insert k v db (ne_of_length _ _ (λ e. omega (arith, e, sized)))
        (ne_of_length _ _ (λ e. omega (arith, e, sized)))
        (Named-insert k v db (λ p e. new p) s.named) s

  -- Each list may be written with whole keys.
  pub IsSound-jobs :
      (keys : List Bytes) (db : Db)
      → HaveLength 32 keys
      → IsSound db
      → IsSound (insert wasmstore_key_list (listing keys) db)
  IsSound-jobs keys db sized s = record {
    jobs = IsListed-written wasmstore_key_list keys db sized;
    results =
        IsListed-insert wasmstore_key_list (listing keys) wasmstore_result_list db
          (ne_of_length _ _ (λ e. omega (arith, e))) s.results;
    named = Named-insert_other wasmstore_key_list (listing keys) db (λ e. omega (arith, e)) s.named;
  }

  pub IsSound-results :
      (keys : List Bytes) (db : Db)
      → HaveLength 32 keys
      → IsSound db
      → IsSound (insert wasmstore_result_list (listing keys) db)
  IsSound-results keys db sized s = record {
    jobs =
        IsListed-insert wasmstore_result_list (listing keys) wasmstore_key_list db
          (ne_of_length _ _ (λ e. omega (arith, e))) s.jobs;
    results = IsListed-written wasmstore_result_list keys db sized;
    named =
        Named-insert_other wasmstore_result_list (listing keys) db (λ e. omega (arith, e)) s.named;
  }
