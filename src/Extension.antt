-- ===== src/Extension.antt =====
-- The chain extension that hands scripts to contracts (chain-extensions/src/lib.rs).
use my_polkadot_orcale.Prelude.{
  ℕ, ◌≤◌, ◌≡◌, ◌≢◌, Bytes, Option, none, some, length, nat_beq, lookup, bytes_eq, Outcome, ok, err,
  if◌then◌else◌, arith,
}
use my_polkadot_orcale.Wasmstore.Types.{Config, State, ScriptDetail}

-- The errors of the extension; `not_decoded` and `not_written` are those of `read_as` and `write`.
pub data ExtensionError : Type 0 where
  not_decoded not_written key_too_long script_not_found unimplemented : ExtensionError

-- `env.read_as` and `script.encode()` are parameters; `write` is one of the environment, and says
-- whether the buffer of the contract takes the bytes.
module _ (c : Config) (read_as : Bytes → Option Bytes) (encode_script : ScriptDetail → Bytes)
    (write : Bytes → Option Bytes) where
  -- `RetVal::Converging(0)` comes with the written bytes.
  abbrev pub write_script : Option ScriptDetail → Outcome ExtensionError Bytes
  write_script none = err script_not_found
  write_script (some script) = elim (write (encode_script script)) [
    | none ↦ err not_written
    | some out ↦ ok out
  ]

  abbrev pub read_script : State → Option Bytes → Outcome ExtensionError Bytes
  read_script s none = err not_decoded
  read_script s (some key) = elim (c.try_from c.max_script_key_len key) [
    | none ↦ err key_too_long
    | some bounded_key ↦ write_script (lookup bounded_key s.script_storage)
  ]

  unfoldable pub call : ℕ → Bytes → State → Outcome ExtensionError Bytes
  call func_id input s =
      if nat_beq func_id 0 then read_script s (read_as input) else err unimplemented

  -- For an input that decodes to a key within its bound: function 0 gives a contract the script that is stored under the key it names, and an error where
  -- there is none; any other function is refused.
  pub call_lem :
      (func_id : ℕ) (input key : Bytes) (s : State)
      → read_as input ≡ some key
      → length key ≤ c.max_script_key_len
      → (func_id ≢ 0 → call func_id input s ≡ err unimplemented)
        × (lookup key s.script_storage ≡ none → call 0 input s ≡ err script_not_found)
        × ((script : ScriptDetail) (out : Bytes)
            → lookup key s.script_storage ≡ some script
            → write (encode_script script) ≡ some out
            → call 0 input s ≡ ok out)
  unfolding call
  call_lem func_id input key s reads fits = (
    (λ h. ground arith),
    (λ h. ground (arith, c.try_from_lem c.max_script_key_len key)),
    λ script out found fits'. ground (arith, c.try_from_lem c.max_script_key_len key),
  )
