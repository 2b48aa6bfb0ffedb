-- ===== src/Examples/Others.antt =====
-- Examples for the executor's storage, the script runtime, and the smaller parts.
use my_polkadot_orcale.Prelude.{
  flatten, ℕ, zero, suc, ap, ◌%◌, ◌+◌, ◌*◌, ◌/◌, ◌≡◌, ◌<◌, refl, Bytes, Option, none, some, List,
  [], ◌∷◌, ◌++◌, length, take, drop, leb, codes, ok, arith, bytes_eq, if◌then◌else◌, All,
}
use my_polkadot_orcale.Script.Types.{Param, SelectorRegistry}
use my_polkadot_orcale.Script.Memory.{Memory, Scale, from_le_bytes}
use my_polkadot_orcale.Script.Output.{array, read_fields, field_type, strip_prefix, strip_suffix}
use my_polkadot_orcale.Script.Url.{read_url, url_text, read_url_lem}
use my_polkadot_orcale.Script.Scalars.{NumericWidth}
use my_polkadot_orcale.Script.Strings.{plain_array-shifts}
use my_polkadot_orcale.Utils.{Host, not_sent}
use my_polkadot_orcale.Node.Executor.{key_list_parser}
use my_polkadot_orcale.Node.Storage.{key_list_parser-append}
use my_polkadot_orcale.Examples.Fixture.{zeros}

abbrev to_le_bytes : ℕ → ℕ → Bytes
to_le_bytes zero bits = []
to_le_bytes (suc n) bits = bits % 256 ∷ to_le_bytes n (bits / 256)

to_le_bytes-from_le_bytes :
    (bs : Bytes) → All (λ b. b < 256) bs → to_le_bytes (length bs) (from_le_bytes bs) ≡ bs
unfolding from_le_bytes
to_le_bytes-from_le_bytes [] h = refl
to_le_bytes-from_le_bytes (b ∷ bs) h =
    let rest = from_le_bytes bs in
    let low : (b + 256 * rest) % 256 ≡ b = omega arith in
    let high : (b + 256 * rest) / 256 ≡ rest = omega arith in
    rw (low, high) (ap (λ (t : Bytes). b ∷ t) (to_le_bytes-from_le_bytes bs h.1))

pub scale : Scale
scale = record {
  encode_bits = to_le_bytes;
  encode_compact = λ n. 4 * n ∷ [];
  encode_bits-from_le_bytes = to_le_bytes-from_le_bytes;
}

abbrev pub twelve : Bytes
twelve = 0 ∷ 0 ∷ 0 ∷ 0 ∷ 1 ∷ 2 ∷ 3 ∷ 4 ∷ 104 ∷ 0 ∷ 0 ∷ 0 ∷ []

pub twelve_small : All (λ b. b < 256) twelve
twelve_small = search arith

abbrev pub memory : Memory
memory = record {
  memory_data = twelve;
  read = λ offset n.
      if leb (offset + n) (length twelve) then some (take n (drop offset twelve)) else none;
  read_lem = λ offset n. refl;
  bytes_lem = twelve_small;
}

pub utf16 : List ℕ → Option Bytes
utf16 units = some units

abbrev registry : SelectorRegistry
registry = record {
  origin = [];
  functions = [];
  variables = [];
  classes_schema =
      (
        codes "Output",
        record { name = codes "a"; param_type = codes "i32" }
            ∷ record { name = codes "b"; param_type = codes "f32" }
            ∷ [],
      )
      ∷ [];
}

numeric :
    NumericWidth
      (record { name = codes "a"; param_type = codes "i32" }
        ∷ record { name = codes "b"; param_type = codes "f32" }
        ∷ [])
      8
unfolding field_type
numeric = (4, 4, refl, (4, 0, refl, refl, refl), refl)

read_url_lem_example : read_url twelve 8 ≡ url_text twelve 8
read_url_lem_example = read_url_lem twelve 8 twelve_small

abbrev numbers : Param
numbers = record { name = codes "xs"; param_type = codes "Array<f32>" }

is_array : field_type numbers.param_type ≡ array (codes "f32")
unfolding field_type strip_prefix strip_suffix
is_array = refl

plain_array-shifts_example :
    read_fields scale utf16 memory registry (numbers ∷ []) 0
    ≡ read_fields scale utf16 memory registry [] 0
plain_array-shifts_example =
    plain_array-shifts scale utf16 memory registry numbers [] 0 (codes "f32") is_array refl

abbrev machine : Host
machine = record {
  local = (codes "api_key", 1 ∷ []) ∷ [];
  timestamp = 10;
  sent = [];
  network = λ request deadline. not_sent;
  is_utf8 = λ raw. some raw;
}

key_list_parser-append_example :
    key_list_parser (codes "init" ++ flatten (zeros 32 ∷ zeros 32 ∷ []))
    ≡ ok (zeros 32 ∷ zeros 32 ∷ [])
key_list_parser-append_example =
    key_list_parser-append (zeros 32 ∷ zeros 32 ∷ []) (refl, (refl, tt))
