-- ===== src/Examples/Scripts.antt =====
-- Examples for whole runs of a script.
use my_polkadot_orcale.Prelude.{
  ℕ, zero, suc, ◌≡◌, ◌≢◌, refl, ap, Bytes, some, none, List, [], ◌∷◌, length, take, drop, ok, All,
  arith, nat_eq, nat_beq, bytes_eq, bytes_beq_iff, ◌==◌, if◌then◌else◌, codes, true, lookup, ◌<◌,
}
use my_polkadot_orcale.Script.Types.{Root}
use my_polkadot_orcale.Script.Registry.{fill_registry}
use my_polkadot_orcale.Script.Output.{field_type, scalar}
use my_polkadot_orcale.Script.Https.{HttpClient}
use my_polkadot_orcale.Script.Runner.{
  ExternType, func, global, i32, Extern, Wasmtime, abi_reader, externs_of,
}
use my_polkadot_orcale.Script.Runner.Runs.{Served, global_import_fails, numeric_run}
use my_polkadot_orcale.Examples.Fixture.{zeros}
use my_polkadot_orcale.Examples.Others.{scale, memory, utf16}

length-zeros : (n : ℕ) → length (zeros n) ≡ n
length-zeros zero = refl
length-zeros (suc n) = ap suc (length-zeros n)

zeros_small : (n : ℕ) → All (λ b. b < 256) (zeros n)
zeros_small zero = tt
zeros_small (suc n) = (omega arith, zeros_small n)

-- A module that is one function, or one global.
abbrev pub wasmtime : Wasmtime (List ExternType) (Unit {0})
wasmtime = record {
  from_binary = λ bin. some (if bin == 7 ∷ [] then global i32 ∷ [] else func ∷ []);
  imports = λ m. m;
  new_table = λ t. true;
  new_instance = λ m externs. if nat_beq (length externs) (length m) then some tt else none;
  get_memory = λ i. some (zeros 10240);
  has_process = λ i. true;
  get_url = λ i. some (some 5);
  process = λ i before at n. some (0, memory);
  new_instance_lem = λ m externs i h. ground (arith, h);
}

abbrev pub client : HttpClient
client = record {
  parse_header_name = λ name. some name;
  is_header_value = λ val. true;
  send_for_text = λ r. some (9 ∷ []);
}

abbrev pub root : Root
root = record {
  headers = record { name = none; header = [] };
  functions = [];
  classes =
      record {
        class_selector = [];
        name = codes "Output";
        fields = record { name = []; param_type = codes "i64" } ∷ [];
        methods = [];
      }
      ∷ [];
  variables = [];
}

abbrev pub to_utf8 : List ℕ → Bytes
to_utf8 text = text

global_import_fails_example :
    abi_reader wasmtime client scale to_utf8 utf16 (λ t. some root) [] (7 ∷ []) ≢ ok []
global_import_fails_example =
    global_import_fails wasmtime client scale to_utf8 utf16 (λ t. some root) [] (7 ∷ [])
      (global i32 ∷ []) refl tt []

-- Any code but the one of the module with the global is served.
pub served :
    (bin : Bytes) → bin ≢ 7 ∷ [] → Served wasmtime client scale to_utf8 utf16 bin (9 ∷ []) 0 memory
unfolding externs_of
served bin other = record {
  m = func ∷ [];
  externs = Extern.func_extern ∷ [];
  i = tt;
  memory_data = zeros 10240;
  url = 5;
  loads = ground (arith, other, bytes_beq_iff bin (7 ∷ []));
  imports = refl;
  starts = refl;
  has_memory = refl;
  has_process = refl;
  has_url = refl;
  url_fits = omega arith;
  bytes = zeros_small 10240;
  answered = refl;
  wide_enough = omega (arith, length-zeros 10240);
  json_fits = omega (arith, length-zeros 10240);
  returns = refl;
  ptr_fits = omega arith;
}

pub schema :
    lookup (codes "Output") (fill_registry root).classes_schema
    ≡ some (record { name = []; param_type = codes "i64" } ∷ [])
unfolding fill_registry
schema = refl

pub is_wide : field_type (codes "i64") ≡ scalar 8
unfolding field_type
is_wide = refl

numeric_run_example :
    abi_reader wasmtime client scale to_utf8 utf16 (λ t. some root) [] []
    ≡ ok (take 8 (drop 0 memory.memory_data))
numeric_run_example =
    numeric_run wasmtime client scale to_utf8 utf16 (λ t. some root) [] [] (9 ∷ []) 0 8 memory root
      (record { name = []; param_type = codes "i64" } ∷ []) refl (served [] (λ e. cc)) schema
      (8, 0, is_wide, refl, refl) (omega arith)
