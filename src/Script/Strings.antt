-- ===== src/Script/Strings.antt =====
-- Texts and arrays in the output of a script (script-executor/src/runtime.rs).
use my_polkadot_orcale.Prelude.{
  ℕ, ◌+◌, ◌≡◌, refl, ap, Bytes, Option, List, [], ◌∷◌, ◌++◌, contains_key, bytes_eq, Outcome, ok,
  err, panic, arith, false,
}
use my_polkadot_orcale.Script.Types.{Param, SelectorRegistry}
use my_polkadot_orcale.Script.Memory.{Memory, Scale}
use my_polkadot_orcale.Script.Output.{
  ReadError, array, field_type, read_field, read_fields, after_reading,
}

module _ (sc : Scale) (from_utf16 : List ℕ → Option Bytes) (m : Memory) where
  -- An array of anything but a class of the ABI, such as numbers, is passed over without moving the
  -- offset: the field after it is read at the array's own place.
  pub plain_array-shifts :
      (r : SelectorRegistry) (p : Param) (ps : List Param) (place : ℕ) (inner : Bytes)
      → field_type p.param_type ≡ array inner
      → contains_key inner r.classes_schema ≡ false
      → read_fields sc from_utf16 m r (p ∷ ps) place ≡ read_fields sc from_utf16 m r ps place
  unfolding read_fields read_field
  plain_array-shifts r p ps place inner is absent =
      let same : place + 0 ≡ place = omega arith in
      rw is (rw absent (rw same (keep (read_fields sc from_utf16 m r ps place))))
    where
      keep :
          (o : Outcome ReadError (Bytes × ℕ)) → after_reading o (λ x. ok ([] ++ x.0, 0 + x.1)) ≡ o
      keep (ok (out, moved)) = ap (λ (n : ℕ). ok (out, n)) (omega arith)
      keep (err e) = refl
      keep panic = refl
