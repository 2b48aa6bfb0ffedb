-- ===== src/Script/Runner/Runs.antt =====
-- Which scripts run, and what a script with a numeric output is answered with.
use my_polkadot_orcale.Prelude.{
  ℕ, suc, if◌then◌else◌, ◌+◌, ◌-◌, ◌^◌, ◌≡◌, ◌≢◌, ◌≤◌, ◌<◌, inl, inr, refl, ap, Bytes, Bool, true,
  false, Option, some, List, [], ◌∷◌, ◌++◌, length, take, drop, codes, Outcome, ok, err, panic,
  arith, lookup, bytes_eq, Option-cases, u64_mod, nat_beq, All,
}
use my_polkadot_orcale.Script.Types.{Root, SelectorRegistry, Param}
use my_polkadot_orcale.Script.Registry.{fill_registry}
use my_polkadot_orcale.Script.Memory.{Memory, Scale}
use my_polkadot_orcale.Script.Scalars.{NumericWidth, read_output-copies}
use my_polkadot_orcale.Script.Url.{url_text, read_url_lem}
use my_polkadot_orcale.Script.Https.{HttpClient, fetch_with_query}
use my_polkadot_orcale.Script.Runner.{
  ExternType, func, global, table, memory, i32, i64, f32, f64, other_type, Extern, func_extern,
  table_extern, no_table, Wasmtime, RunError, as_usize, externs_of, query, write_json, api_url,
  fetched, read_result, run_instance, wasmtime_runner, expect_run, abi_reader, not_instantiated,
  or_err, bind,
}

-- One of the imports is a global.
abbrev pub HasGlobal : List ExternType → Type 0
HasGlobal [] = ⊥
HasGlobal (global v ∷ rest) = Unit
HasGlobal (func ∷ rest) = HasGlobal rest
HasGlobal (table t ∷ rest) = HasGlobal rest
HasGlobal (memory ∷ rest) = HasGlobal rest

-- The imports that get an extern.
abbrev given : List ExternType → ℕ
given [] = 0
given (global v ∷ rest) = given rest
given (func ∷ rest) = suc (given rest)
given (table t ∷ rest) = suc (given rest)
given (memory ∷ rest) = suc (given rest)

given-le : (imports : List ExternType) → given imports ≤ length imports
given-le [] = omega arith
given-le (global v ∷ rest) = omega (arith, given-le rest)
given-le (func ∷ rest) = omega (arith, given-le rest)
given-le (table t ∷ rest) = omega (arith, given-le rest)
given-le (memory ∷ rest) = omega (arith, given-le rest)

given-lt : (imports : List ExternType) → HasGlobal imports → given imports < length imports
given-lt [] h = elim h [ ]
given-lt (global v ∷ rest) h = omega (arith, given-le rest)
given-lt (func ∷ rest) h = omega (arith, given-lt rest h)
given-lt (table t ∷ rest) h = omega (arith, given-lt rest h)
given-lt (memory ∷ rest) h = omega (arith, given-lt rest h)

abbrev Counts : ℕ → Outcome RunError (List Extern) → Type 0
Counts n (ok externs) = length externs ≡ n
Counts n (err e) = Unit
Counts n panic = Unit

-- An extern is pushed for each import but a global.
Counts-externs_of :
    (new_table : ℕ → Bool) (imports : List ExternType)
    → Counts (given imports) (externs_of new_table imports)
unfolding externs_of
Counts-externs_of new_table [] = refl
Counts-externs_of new_table (func ∷ rest) =
    one_more func_extern (externs_of new_table rest) (Counts-externs_of new_table rest)
  where
    one_more :
        (x : Extern) (o : Outcome RunError (List Extern))
        → Counts (given rest) o
        → Counts
            (suc (given rest))
            (elim o [ ok externs ↦ ok (x ∷ externs) | err e ↦ err e | panic ↦ panic ])
    one_more x (ok externs) h = ap suc h
    one_more x (err e) h = tt
    one_more x panic h = tt
Counts-externs_of new_table (global i32 ∷ rest) = Counts-externs_of new_table rest
Counts-externs_of new_table (global i64 ∷ rest) = Counts-externs_of new_table rest
Counts-externs_of new_table (global f32 ∷ rest) = Counts-externs_of new_table rest
Counts-externs_of new_table (global f64 ∷ rest) = Counts-externs_of new_table rest
Counts-externs_of new_table (global other_type ∷ rest) = tt
Counts-externs_of new_table (table t ∷ rest) =
    with_table (new_table t) (externs_of new_table rest) (Counts-externs_of new_table rest)
  where
    with_table :
        (b : Bool) (o : Outcome RunError (List Extern))
        → Counts (given rest) o
        → Counts (suc (given rest)) (
            if b
            then elim o [
              | ok externs ↦ ok (table_extern t ∷ externs)
              | err e ↦ err e
              | panic ↦ panic
            ]
            else err no_table)
    with_table false o h = tt
    with_table true (ok externs) h = ap suc h
    with_table true (err e) h = tt
    with_table true panic h = tt
Counts-externs_of new_table (memory ∷ rest) = tt

module _ {Module Instance : Type 0} (w : Wasmtime Module Instance) (http : HttpClient) (sc : Scale)
    (to_utf8 : List ℕ → Bytes) (from_utf16 : List ℕ → Option Bytes) where
  abbrev Fails : Outcome RunError Bytes → Type 0
  Fails o = (out : Bytes) → o ≢ ok out

  started-Fails :
      (m : Module) (register : SelectorRegistry) (o : Outcome RunError (List Extern))
      → HasGlobal (w.imports m)
      → Counts (given (w.imports m)) o
      → Fails (
          bind o (λ externs.
            bind
              (or_err not_instantiated (w.new_instance m externs))
              (run_instance w http sc to_utf8 from_utf16 register)))
  started-Fails m register (err e) h k out eq = ground (arith, eq)
  started-Fails m register panic h k out eq = ground (arith, eq)
  started-Fails m register (ok externs) h k out eq =
      elim (Option-cases (w.new_instance m externs)) [
        | inl e ↦ ground (arith, eq)
        | inr (i, e) ↦
            absurd (omega (arith, k, w.new_instance_lem m externs i e, given-lt (w.imports m) h))
      ]

  expect_run-Fails :
      (o : Outcome RunError Bytes) → Fails o → Fails (expect_run w http sc to_utf8 from_utf16 o)
  expect_run-Fails (ok res) h out e = h out e
  expect_run-Fails (err x) h out e = ground (arith, e)
  expect_run-Fails panic h out e = ground (arith, e)

  -- A script that imports a global never runs, whatever its code, its interface and its data.
  pub global_import_fails :
      (from_str : Bytes → Option Root) (file_content bin : Bytes) (m : Module)
      → w.from_binary bin ≡ some m
      → HasGlobal (w.imports m)
      → (out : Bytes) → abi_reader w http sc to_utf8 from_utf16 from_str file_content bin ≢ ok out
  unfolding abi_reader wasmtime_runner
  global_import_fails from_str file_content bin m loaded h out =
      elim (Option-cases (from_str file_content)) [
        | inl e ↦ (λ eq. ground (arith, eq))
        | inr (root, e) ↦ (λ eq.
            expect_run-Fails (wasmtime_runner w http sc to_utf8 from_utf16 bin (fill_registry root))
              (λ o. rw loaded (
                started-Fails m (fill_registry root) (externs_of w.new_table (w.imports m)) h
                  (Counts-externs_of w.new_table (w.imports m)) o))
              out (rw e at eq))
      ]

  -- What the outside does for a run: the instance, the data for its URL, and the pointer and the
  -- memory that `process` leaves.
  pub record Served (bin json : Bytes) (ptr : ℕ) (after' : Memory) : Type 0 where
    pub m : Module
    pub externs : List Extern
    pub i : Instance
    pub memory_data : Bytes
    pub url : ℕ
    pub loads : w.from_binary bin ≡ some m
    pub imports : externs_of w.new_table (w.imports m) ≡ ok externs
    pub starts : w.new_instance m externs ≡ some i
    pub has_memory : w.get_memory i ≡ some memory_data
    pub has_process : w.has_process i ≡ true
    pub has_url : w.get_url i ≡ some (some url)
    pub url_fits : url < 2 ^ 31
    pub bytes : All (λ b. b < 256) memory_data
    pub answered :
        http.send_for_text (record {
          url = to_utf8 (url_text memory_data url);
          headers = (codes "user-agent", codes "MyRustClient/0.1") ∷ [];
          query = query;
        })
        ≡ some json
    pub wide_enough : 10240 ≤ length memory_data
    pub json_fits : length json ≤ length memory_data
    pub returns :
        w.process i (json ++ drop (length json) memory_data) 0 (length json) ≡ some (ptr, after')
    pub ptr_fits : ptr < 2 ^ 31

  as_usize-small : (n : ℕ) → n < 2 ^ 31 → as_usize n ≡ n
  as_usize-small n h = ground arith

  served_url :
      (memory_data : Bytes) (url : ℕ)
      → All (λ b. b < 256) memory_data
      → url < 2 ^ 31
      → api_url w http sc to_utf8 from_utf16 memory_data url
        ≡ ok (to_utf8 (url_text memory_data url))
  served_url memory_data url bytes h =
      let not_last : nat_beq url (u64_mod - 1) ≡ false = ground arith in
      rw (as_usize-small url h) (rw not_last (rw (read_url_lem memory_data url bytes) refl))

  Served-run :
      (bin json : Bytes) (ptr : ℕ) (after' : Memory) (register : SelectorRegistry)
      → Served bin json ptr after'
      → wasmtime_runner w http sc to_utf8 from_utf16 bin register
        ≡ read_result w http sc to_utf8 from_utf16 register (ptr, after')
  unfolding wasmtime_runner run_instance
  Served-run bin json ptr after' register s =
      let text = to_utf8 (url_text s.memory_data s.url) in
      let got : fetched w http sc to_utf8 from_utf16 text ≡ ok json =
        unfold fetch_with_query in rw (fetched, s.answered) refl in
      let written : write_json json s.memory_data ≡ ok (json ++ drop (length json) s.memory_data) =
        ground (arith, s.json_fits, s.wide_enough) in
      rw s.loads (
        rw s.imports (
          rw s.starts (
            rw s.has_memory (
              rw s.has_process (
                rw s.has_url (
                  rw (served_url s.memory_data s.url s.bytes s.url_fits)
                    (rw got (rw written (rw s.returns refl)))))))))

  -- A script that is served, whose interface gives its output numeric fields only, and whose output
  -- lies within its memory, is answered with the bytes of its output as they lie there.
  pub numeric_run :
      (from_str : Bytes → Option Root) (file_content bin json : Bytes) (ptr n : ℕ) (after' : Memory)
      (root : Root) (fields : List Param)
      → from_str file_content ≡ some root
      → Served bin json ptr after'
      → lookup (codes "Output") (fill_registry root).classes_schema ≡ some fields
      → NumericWidth fields n
      → ptr + n ≤ length after'.memory_data
      → abi_reader w http sc to_utf8 from_utf16 from_str file_content bin
        ≡ ok (take n (drop ptr after'.memory_data))
  unfolding abi_reader
  numeric_run from_str file_content bin json ptr n after' root fields parsed s schema numeric fits =
      let register = fill_registry root in
      let read : read_result w http sc to_utf8 from_utf16 register (ptr, after')
          ≡ ok (take n (drop ptr after'.memory_data)) =
        rw (read_result, as_usize-small ptr s.ptr_fits)
          (rw (read_output-copies sc from_utf16 after' register fields n ptr schema numeric fits)
            refl) in
      rw parsed (rw (Served-run bin json ptr after' register s) (rw read refl))
