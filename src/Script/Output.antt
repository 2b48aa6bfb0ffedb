-- ===== src/Script/Output.antt =====
-- Reading a script's output: the second half of `wasmtime_runner`, and `read_utf16_string`.
use my_polkadot_orcale.Prelude.{
  ℕ, zero, suc, ◌+◌, ◌*◌, Bytes, Option, none, some, List, [], ◌∷◌, ◌++◌, length, take, drop,
  nat_beq, ◌==◌, bytes_eq, codes, lookup, contains_key, flatten, Outcome, ok, err, panic,
  if◌then◌else◌,
}
use my_polkadot_orcale.Script.Types.{Param, SelectorRegistry}
use my_polkadot_orcale.Script.Memory.{Memory, Scale, from_le_bytes, utf16_units}

pub data ReadError : Type 0 where
  out_of_bounds : ReadError

-- How the code reads a field of an output.
pub data FieldType : Type 0 where
  scalar : ℕ → FieldType
  array : Bytes → FieldType
  broken_array text other_field : FieldType

unfoldable pub strip_prefix : Bytes → Bytes → Option Bytes
strip_prefix [] xs = some xs
strip_prefix (p ∷ ps) [] = none
strip_prefix (p ∷ ps) (x ∷ xs) = let rest = strip_prefix ps xs in if nat_beq p x then rest else none

-- `strip_suffix('>')`
unfoldable pub strip_suffix : Bytes → Option Bytes
strip_suffix [] = none
strip_suffix (x ∷ []) = if nat_beq x 62 then some [] else none
strip_suffix (x ∷ y ∷ ys) = elim (strip_suffix (y ∷ ys)) [ none ↦ none | some zs ↦ some (x ∷ zs) ]

abbrev pub array_type : Option Bytes → FieldType
array_type (some inner) = array inner
array_type none = broken_array

-- The arms of the match on `param_type`, in their order.
unfoldable pub field_type : Bytes → FieldType
unfolding strip_prefix strip_suffix
field_type t =
    if t == codes "i32"
    then scalar 4
    else if t == codes "f32"
    then scalar 4
    else if t == codes "i64"
    then scalar 8
    else if t == codes "f64"
    then scalar 8
    else elim (strip_prefix (codes "Array<") t) [
      | some inner ↦ array_type (strip_suffix inner)
      | none ↦ if t == codes "string" then text else other_field
    ]

-- `take_while(|&u| u != 0)`
unfoldable pub before_zero : List ℕ → List ℕ
before_zero [] = []
before_zero (u ∷ us) = let rest = before_zero us in if nat_beq u 0 then [] else u ∷ rest

-- What a reading adds to the output, and how far it moves the offset.
abbrev pub Reading : Type 0
Reading = Outcome ReadError (Bytes × ℕ)

abbrev pub after_reading : Reading → (Bytes × ℕ → Reading) → Reading
after_reading (ok a) f = f a
after_reading (err e) f = err e
after_reading panic f = panic

module _ (sc : Scale) (from_utf16 : List ℕ → Option Bytes) (m : Memory) where
  -- `String::from_utf16` is a parameter. Twice `max_len` bytes are read, wherever the text ends.
  unfoldable pub read_utf16_string : ℕ → ℕ → Option Bytes
  unfolding utf16_units before_zero
  read_utf16_string ptr max_len = elim (m.read ptr (max_len * 2)) [
    | none ↦ none
    | some raw ↦ from_utf16 (before_zero (utf16_units raw))
  ]

  abbrev pub read_number : ℕ → ℕ → Option ℕ
  read_number offset n = elim (m.read offset n) [ none ↦ none | some bs ↦ some (from_le_bytes bs) ]

  -- The loop over an array: elements that are null are left out. Each value is four bytes.
  unfoldable pub read_elements : ℕ → ℕ → Option (List Bytes)
  read_elements elem_offset zero = some []
  read_elements elem_offset (suc n) =
      let rest = read_elements (elem_offset + 4) n in
      elim (read_number elem_offset 4) [
        | none ↦ none
        | some ptr ↦
            (if nat_beq ptr 0 then rest else elim (read_number ptr 4) [
              | none ↦ none
              | some value ↦ elim rest [
                | none ↦ none
                | some vs ↦ some (sc.encode_bits 4 value ∷ vs)
              ]
            ])
      ]

  -- `Vec<f32>::encode`
  abbrev pub encode_values : List Bytes → Bytes
  encode_values vs = sc.encode_compact (length vs) ++ flatten vs

  abbrev pub encode_string : Bytes → Bytes
  encode_string s = sc.encode_compact (length s) ++ s

  abbrev pub read_scalar : ℕ → ℕ → Reading
  read_scalar n place = elim (read_number place n) [
    | none ↦ err out_of_bounds
    | some bits ↦ ok (sc.encode_bits n bits, n)
  ]

  -- The pointer to the elements and their number, from the 16 bytes of an array's header.
  unfoldable pub read_header : Bytes → Reading
  unfolding read_elements
  read_header header =
      let data_ptr = from_le_bytes (take 4 (drop 4 header)) in
      let cap = from_le_bytes (take 4 (drop 12 header)) in
      if nat_beq data_ptr 0 then panic else elim (read_elements data_ptr cap) [
        | none ↦ err out_of_bounds
        | some vs ↦ ok (encode_values vs, 4)
      ]

  abbrev pub read_array : ℕ → Reading
  read_array place = elim (read_number place 4) [
    | none ↦ err out_of_bounds
    | some ptr ↦ elim (m.read ptr 16) [
      | none ↦ err out_of_bounds
      | some header ↦ read_header header
    ]
  ]

  abbrev pub text_or_empty : Option Bytes → Bytes
  text_or_empty none = []
  text_or_empty (some s) = s

  -- `.ok().unwrap_or_default()`: a text that cannot be read is an empty one.
  abbrev pub read_text : ℕ → Reading
  read_text place = elim (read_number place 4) [
    | none ↦ err out_of_bounds
    | some ptr ↦ ok (encode_string (text_or_empty (read_utf16_string ptr 1024)), 4)
  ]

  abbrev pub skip_pointer : ℕ → Reading
  skip_pointer place = elim (read_number place 4) [
    | none ↦ err out_of_bounds
    | some ptr ↦ ok ([], 4)
  ]

  -- One turn of the loop over the fields of the class `Output`, at the place of the field. An array
  -- of anything but a class adds nothing, and does not move the offset.
  unfoldable pub read_field : SelectorRegistry → FieldType → ℕ → Reading
  unfolding read_header
  read_field r (scalar n) place = read_scalar n place
  read_field r (array inner) place =
      if contains_key inner r.classes_schema then read_array place else ok ([], 0)
  read_field r broken_array place = ok ([], 0)
  read_field r text place = read_text place
  read_field r other_field place = skip_pointer place

  -- The loop: `bytes_result` and the offset after the fields.
  unfoldable pub read_fields : SelectorRegistry → List Param → ℕ → Reading
  unfolding field_type read_field
  read_fields r [] place = ok ([], 0)
  read_fields r (p ∷ ps) place =
      after_reading (read_field r (field_type p.param_type) place) (λ (out, moved).
        after_reading (read_fields r ps (place + moved))
          (λ (rest, more). ok (out ++ rest, moved + more)))

  abbrev pub output_of : Reading → Outcome ReadError Bytes
  output_of (ok a) = ok a.0
  output_of (err e) = err e
  output_of panic = panic

  -- What `wasmtime_runner` returns, from the pointer that `process` returned.
  unfoldable pub read_output : SelectorRegistry → ℕ → Outcome ReadError Bytes
  unfolding read_fields
  read_output r output_offset = elim (lookup (codes "Output") r.classes_schema) [
    | none ↦ ok []
    | some fields ↦ output_of (read_fields r fields output_offset)
  ]
