-- ===== src/Script/Scalars.antt =====
-- Numeric outputs of a script (script-executor/src/runtime.rs).
use my_polkadot_orcale.Prelude.{
  ℕ, zero, suc, ◌+◌, ◌≤◌, ◌<◌, ◌≡◌, refl, sym, ap, ◌∙◌, Bytes, Option, some, none, List, [], ◌∷◌,
  ◌++◌, length, take, drop, length-take, length-drop, All, lookup, bytes_eq, codes, ok, arith,
}
use my_polkadot_orcale.Script.Types.{Param, SelectorRegistry}
use my_polkadot_orcale.Script.Memory.{Memory, Scale}
use my_polkadot_orcale.Script.Output.{
  FieldType, scalar, field_type, read_scalar, read_field, read_fields, read_output,
}

All-take : (P : ℕ → Type 0) (n : ℕ) (xs : List ℕ) → All P xs → All P (take n xs)
All-take P zero xs h = tt
All-take P (suc n) [] h = tt
All-take P (suc n) (x ∷ xs) h = (h.0, All-take P n xs h.1)

All-drop : (P : ℕ → Type 0) (n : ℕ) (xs : List ℕ) → All P xs → All P (drop n xs)
All-drop P zero xs h = h
All-drop P (suc n) [] h = tt
All-drop P (suc n) (x ∷ xs) h = All-drop P n xs h.1

take-nil : (n : ℕ) → take {A = ℕ} n [] ≡ []
take-nil zero = refl
take-nil (suc n) = refl

drop-nil : (n : ℕ) → drop {A = ℕ} n [] ≡ []
drop-nil zero = refl
drop-nil (suc n) = refl

take-split : (n k t : ℕ) (xs : Bytes) → t ≡ n + k → take t xs ≡ take n xs ++ take k (drop n xs)
take-split zero k t xs h = ap (λ (i : ℕ). take i xs) (omega arith)
take-split (suc n) k t [] h = take-nil t ∙ sym (take-nil k)
take-split (suc n) k zero (x ∷ xs) h = absurd (omega arith)
take-split (suc n) k (suc t) (x ∷ xs) h =
    ap (λ (l : Bytes). x ∷ l) (take-split n k t xs (omega arith))

drop-split : (n k t : ℕ) (xs : Bytes) → t ≡ n + k → drop k (drop n xs) ≡ drop t xs
drop-split zero k t xs h = ap (λ (i : ℕ). drop i xs) (omega arith)
drop-split (suc n) k t [] h = drop-nil k ∙ sym (drop-nil t)
drop-split (suc n) k zero (x ∷ xs) h = absurd (omega arith)
drop-split (suc n) k (suc t) (x ∷ xs) h = drop-split n k t xs (omega arith)

-- The width of a field of a numeric type; `none` is any other type.
abbrev pub width_of : FieldType → Option ℕ
width_of (scalar n) = some n
width_of _ = none

-- The bytes that fields take up, all of them numbers.
abbrev pub NumericWidth : List Param → ℕ → Type 0
NumericWidth [] n = n ≡ 0
NumericWidth (p ∷ ps) n =
    (w : ℕ) × (k : ℕ) × (field_type p.param_type ≡ scalar w) × NumericWidth ps k × (n ≡ w + k)

module _ (sc : Scale) (from_utf16 : List ℕ → Option Bytes) (m : Memory) where
  -- A number is written as it lies in the memory.
  read_scalar-copies :
      (w place : ℕ)
      → place + w ≤ length m.memory_data
      → read_scalar sc from_utf16 m w place ≡ ok (take w (drop place m.memory_data), w)
  read_scalar-copies w place h =
      let bs = take w (drop place m.memory_data) in
      let bits =
        All-take (λ b. b < 256) w (drop place m.memory_data)
          (All-drop (λ b. b < 256) place m.memory_data m.bytes_lem) in
      let wide : length bs ≡ w =
        ground (arith, length-take w (drop place m.memory_data), length-drop place m.memory_data) in
      let law = sc.encode_bits-from_le_bytes bs bits in
      ground (arith, m.read_lem place w, law, wide)

  read_fields-copies :
      (r : SelectorRegistry) (ps : List Param) (n place : ℕ)
      → NumericWidth ps n
      → place + n ≤ length m.memory_data
      → read_fields sc from_utf16 m r ps place ≡ ok (take n (drop place m.memory_data), n)
  unfolding read_fields read_field
  read_fields-copies r [] n place h fits = rw h refl
  read_fields-copies r (p ∷ ps) n place (w, k, is, more, sum) fits =
      let here = read_scalar-copies w place (omega arith) in
      let rest = read_fields-copies r ps k (place + w) more (omega arith) in
      let split = take-split w k n (drop place m.memory_data) sum in
      let there = drop-split place w (place + w) m.memory_data refl in
      rw is (rw here (rw rest (rw split (rw there (rw sum refl)))))

  -- A script whose output has numbers only and lies within its memory is answered with the bytes of its output as they lie in
  -- its memory: read at the pointer, as wide as the fields together, with nothing added or left out.
  pub read_output-copies :
      (r : SelectorRegistry) (fields : List Param) (n output_offset : ℕ)
      → lookup (codes "Output") r.classes_schema ≡ some fields
      → NumericWidth fields n
      → output_offset + n ≤ length m.memory_data
      → read_output sc from_utf16 m r output_offset ≡ ok (take n (drop output_offset m.memory_data))
  unfolding read_output
  read_output-copies r fields n output_offset found numeric fits =
      rw (found, read_output) (rw (read_fields-copies r fields n output_offset numeric fits) refl)
