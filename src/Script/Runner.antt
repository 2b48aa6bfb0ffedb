-- ===== src/Script/Runner.antt =====
-- A whole run of a script: `wasmtime_runner` and `abi_reader` (script-executor/src/runtime.rs).
pub mod Runs
use my_polkadot_orcale.Prelude.{
  ℕ, ◌+◌, ◌-◌, ◌^◌, ◌≡◌, Bytes, Bool, true, false, Option, none, some, List, [], ◌∷◌, ◌++◌, length,
  drop, leb, ltb, codes, Outcome, ok, err, panic, if◌then◌else◌, u32_mod, u64_mod, nat_beq,
}
use my_polkadot_orcale.Script.Types.{Root, SelectorRegistry}
use my_polkadot_orcale.Script.Registry.{fill_registry}
use my_polkadot_orcale.Script.Memory.{Memory, Scale}
use my_polkadot_orcale.Script.Output.{ReadError, read_output}
use my_polkadot_orcale.Script.Url.{read_url}
use my_polkadot_orcale.Script.Https.{HttpClient, fetch_with_query}

-- The types of globals and imports that wasmtime tells apart.
pub data ValType : Type 0 where
  i32 i64 f32 f64 other_type : ValType

pub data ExternType : Type 0 where
  func : ExternType
  global : ValType → ExternType
  table : (table_type : ℕ) → ExternType
  memory : ExternType

pub data Extern : Type 0 where
  func_extern : Extern
  table_extern : (table_type : ℕ) → Extern

-- wasmtime: a memory is given by its bytes before `process` is called, and with its reading after
-- it; a 32-bit number is given by its bits.
pub record Wasmtime (Module Instance : Type 0) : Type 0 where
  pub from_binary : Bytes → Option Module
  pub imports : Module → List ExternType
  pub new_table : ℕ → Bool
  pub new_instance : Module → List Extern → Option Instance
  pub get_memory : Instance → Option Bytes
  pub has_process : Instance → Bool
  pub get_url : Instance → Option (Option ℕ)
  pub process : Instance → Bytes → ℕ → ℕ → Option (ℕ × Memory)
  -- An instance has one extern for each import.
  pub new_instance_lem :
      (m : Module) (externs : List Extern) (i : Instance)
      → new_instance m externs ≡ some i
      → length externs ≡ length (imports m)

pub data RunError : Type 0 where
  invalid_abi invalid_module no_table not_instantiated no_process : RunError
  fetch_failed json_too_long memory_too_small trapped : RunError
  output_failed : ReadError → RunError

-- `x as usize` of an `i32`: the sign is extended.
abbrev pub as_usize : ℕ → ℕ
as_usize bits = if ltb bits (2 ^ 31) then bits else bits + (u64_mod - u32_mod)

-- The loop over the imports: a global has a value made for it, but is not pushed.
unfoldable pub externs_of : (ℕ → Bool) → List ExternType → Outcome RunError (List Extern)
externs_of new_table [] = ok []
externs_of new_table (func ∷ rest) = elim (externs_of new_table rest) [
  | ok externs ↦ ok (func_extern ∷ externs)
  | err e ↦ err e
  | panic ↦ panic
]
externs_of new_table (global other_type ∷ rest) = panic
externs_of new_table (global _ ∷ rest) = externs_of new_table rest
externs_of new_table (table t ∷ rest) =
    let others = externs_of new_table rest in
    if new_table t
    then elim others [ ok externs ↦ ok (table_extern t ∷ externs) | err e ↦ err e | panic ↦ panic ]
    else err no_table
externs_of new_table (memory ∷ rest) = panic

abbrev pub bind :
    {A B : Type 0} → Outcome RunError A → (A → Outcome RunError B) → Outcome RunError B
bind (ok a) f = f a
bind (err e) f = err e
bind panic f = panic

-- `e?` and `e.unwrap()`
abbrev pub or_err : {A : Type 0} → RunError → Option A → Outcome RunError A
or_err e none = err e
or_err e (some a) = ok a

abbrev pub unwrap : {A : Type 0} → Option A → Outcome RunError A
unwrap none = panic
unwrap (some a) = ok a

-- The query of the request for a script's data. It stands in a `HashMap`, of which this is one order.
abbrev pub query : List (Bytes × Bytes)
query = (codes "category", codes "finance") ∷ (codes "https", codes "true") ∷ []

-- `memory.write(.., 0, json)` and the reading of the first 10240 bytes that follows it.
abbrev pub write_json : Bytes → Bytes → Outcome RunError Bytes
write_json json data_before =
    if leb (length json) (length data_before)
    then (if leb 10240 (length data_before)
        then ok (json ++ drop (length json) data_before)
        else err memory_too_small)
    else err json_too_long

module _ {Module Instance : Type 0} (w : Wasmtime Module Instance) (http : HttpClient) (sc : Scale)
    (to_utf8 : List ℕ → Bytes) (from_utf16 : List ℕ → Option Bytes) where
  -- The place of the URL is one below the end of the numbers for -1: `i + 1` overflows.
  abbrev pub api_url : Bytes → ℕ → Outcome RunError Bytes
  api_url memory_data bits =
      if nat_beq (as_usize bits) (u64_mod - 1)
      then panic
      else ok (to_utf8 (read_url memory_data (as_usize bits)))

  abbrev pub fetched : Bytes → Outcome RunError Bytes
  fetched url = elim (fetch_with_query http url (some query) none) [
    | ok json ↦ ok json
    | err e ↦ err fetch_failed
    | panic ↦ panic
  ]

  abbrev pub read_result : SelectorRegistry → ℕ × Memory → Outcome RunError Bytes
  read_result register (ret_ptr, m) =
      elim (read_output sc from_utf16 m register (as_usize ret_ptr)) [
        | ok out ↦ ok out
        | err e ↦ err (output_failed e)
        | panic ↦ panic
      ]

  -- From the instance on.
  unfoldable pub run_instance : SelectorRegistry → Instance → Outcome RunError Bytes
  run_instance register i = bind (unwrap (w.get_memory i)) (λ memory_data.
      bind (if w.has_process i then ok tt else err no_process) (λ (_ : Unit {0}).
        bind (unwrap (w.get_url i)) (λ url. bind (unwrap url) (λ bits.
          bind (api_url memory_data bits) (λ url. bind (fetched url) (λ json.
            bind (write_json json memory_data) (λ written.
              bind (or_err trapped (w.process i written 0 (length json)))
                (read_result register))))))))

  unfoldable pub wasmtime_runner : Bytes → SelectorRegistry → Outcome RunError Bytes
  unfolding externs_of
  wasmtime_runner bin register = bind (or_err invalid_module (w.from_binary bin)) (λ m.
      bind (externs_of w.new_table (w.imports m)) (λ externs.
        bind (or_err not_instantiated (w.new_instance m externs)) (run_instance register)))

  -- Every error of the run is a panic of `expect`.
  abbrev pub expect_run : Outcome RunError Bytes → Outcome RunError Bytes
  expect_run (ok res) = ok res
  expect_run (err e) = panic
  expect_run panic = panic

  unfoldable pub abi_reader : (Bytes → Option Root) → Bytes → Bytes → Outcome RunError Bytes
  abi_reader from_str file_content wasm_bytecode =
      bind (or_err invalid_abi (from_str file_content))
        (λ root. expect_run (wasmtime_runner wasm_bytecode (fill_registry root)))
