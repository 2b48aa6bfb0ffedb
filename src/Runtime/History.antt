-- ===== src/Runtime/History.antt =====
-- What holds in every history of the runtime with both of its own pallets.
use mathlib.Core.Option.{some-injective}
use my_polkadot_orcale.Prelude.{
  ℕ, suc, Bytes, Bool, ◌≡◌, sym, ap, arith, Option, some, ok, List, StoreMap, lookup, nat_eq,
  pair_eq, bytes_eq,
}
use my_polkadot_orcale.Model.{Hash, AccountId}
use my_polkadot_orcale.Frame.{Frame}
use my_polkadot_orcale.Wasmstore.Types as Wasmstore
use my_polkadot_orcale.Wasmstore.Types.{OcwJob}
use my_polkadot_orcale.Wasmstore.Chain as WasmstoreChain
use my_polkadot_orcale.Wasmstore.Invariant as WasmstoreInvariant
use my_polkadot_orcale.Wasmstore.Preserved as Preserved
use my_polkadot_orcale.Wasmstore.Clock.{dispatch-block}
use my_polkadot_orcale.Ocw.Types as Ocw
use my_polkadot_orcale.Ocw.Types.{Balances, Meta}
use my_polkadot_orcale.Ocw.Prices.{PricePayload, add_data}
use my_polkadot_orcale.Ocw.Staking.{build_genesis}
use my_polkadot_orcale.Ocw.Chain as OcwChain
use my_polkadot_orcale.Ocw.Invariant as OcwInvariant
use my_polkadot_orcale.Ocw.History as OcwHistory
use my_polkadot_orcale.Ocw.Timing.{dispatch-Timed}
use my_polkadot_orcale.Runtime.Chain.{
  Storage, RuntimeCall, ocw_pallet, wasm_store_pallet, wasmstore, ocw, dispatch, validate_unsigned,
  Step, called, called_unsigned, ledger_moves, next_block, Reach, here, next,
}

module _ {L : Type 0} (treasury : AccountId) (frame : Frame) (encode_job : OcwJob → Bytes)
    (iter : StoreMap Hash OcwJob → StoreMap Hash OcwJob) (balances : Balances L)
    (verify : PricePayload → Bytes → Bool) where
  abbrev W : Wasmstore.Config
  W = wasmstore treasury frame encode_job iter balances verify

  abbrev O : Ocw.Config L
  O = ocw treasury frame encode_job iter balances verify

  abbrev R : Storage L → Storage L → Type 0
  R = Reach treasury frame encode_job iter balances verify

  -- The storage before the first block.
  abbrev pub genesis : List AccountId → L → Storage L
  genesis collators ledger = record {
    wasmstore = Preserved.genesis W collators;
    ocw = OcwHistory.genesis O ledger;
  }

  -- A step of the runtime is a step of one pallet or leaves it alone.
  wasmstore_step :
      {s t : Storage L} {u : Wasmstore.State}
      → Step treasury frame encode_job iter balances verify s t
      → WasmstoreChain.Reach W u s.wasmstore
      → WasmstoreChain.Reach W u t.wasmstore
  unfolding dispatch
  wasmstore_step (called s (ocw_pallet call) o e) r = r
  wasmstore_step (called s (wasm_store_pallet call) o e) r =
      WasmstoreChain.next r (WasmstoreChain.called s.wasmstore call o)
  wasmstore_step (called_unsigned s (ocw_pallet call) o v e let_in) r = r
  wasmstore_step (called_unsigned s (wasm_store_pallet call) o v e let_in) r =
      WasmstoreChain.next r (WasmstoreChain.called s.wasmstore call o)
  wasmstore_step (ledger_moves s ledger) r = r
  wasmstore_step (next_block s) r = WasmstoreChain.next r (WasmstoreChain.next_block s.wasmstore)

  pub wasmstore_history : {s t : Storage L} → R s t → WasmstoreChain.Reach W s.wasmstore t.wasmstore
  wasmstore_history here = WasmstoreChain.here
  wasmstore_history (next r st) = wasmstore_step st (wasmstore_history r)

  ocw_step :
      {s t : Storage L} {u : Ocw.State L}
      → Step treasury frame encode_job iter balances verify s t
      → OcwChain.Reach O verify u s.ocw
      → OcwChain.Reach O verify u t.ocw
  unfolding dispatch validate_unsigned
  ocw_step (called s (ocw_pallet call) o e) r = OcwChain.next r (OcwChain.called s.ocw call o e)
  ocw_step (called s (wasm_store_pallet call) o e) r = r
  ocw_step (called_unsigned s (ocw_pallet call) o v e let_in) r =
      OcwChain.next r (OcwChain.called_unsigned s.ocw call o v e (some-injective _ _ let_in))
  ocw_step (called_unsigned s (wasm_store_pallet call) o v e let_in) r = r
  ocw_step (ledger_moves s ledger) r = OcwChain.next r (OcwChain.ledger_moves s.ocw ledger)
  ocw_step (next_block s) r = OcwChain.next r (OcwChain.next_block s.ocw)

  pub ocw_history : {s t : Storage L} → R s t → OcwChain.Reach O verify s.ocw t.ocw
  ocw_history here = OcwChain.here
  ocw_history (next r st) = ocw_step st (ocw_history r)

  -- What holds of both pallets together.
  pub record IsSound (s : Storage L) : Type 0 where
    pub scripts : WasmstoreInvariant.IsValid W s.wasmstore
    pub prices : OcwInvariant.IsValid O s.ocw
    pub one_clock : s.wasmstore.block_number ≡ s.ocw.block_number

  dispatch-clock :
      (call : RuntimeCall) (o : ℕ) (s : Storage L)
      → IsSound s
      → let t = dispatch treasury frame encode_job iter balances verify call o s in
        t.wasmstore.block_number ≡ t.ocw.block_number
  unfolding dispatch
  dispatch-clock (ocw_pallet call) o s sound =
      let timed = dispatch-Timed O (omega arith) call o s.ocw sound.prices in
      omega (arith, sound.one_clock, timed.same_block)
  dispatch-clock (wasm_store_pallet call) o s sound =
      omega (arith, sound.one_clock, dispatch-block W call o s.wasmstore)

  Step-clock :
      {s t : Storage L}
      → Step treasury frame encode_job iter balances verify s t
      → IsSound s
      → t.wasmstore.block_number ≡ t.ocw.block_number
  Step-clock (called s call o e) sound = dispatch-clock call o s sound
  Step-clock (called_unsigned s call o v e let_in) sound = dispatch-clock call o s sound
  Step-clock (ledger_moves s ledger) sound = sound.one_clock
  Step-clock (next_block s) sound = ap suc sound.one_clock

  module _ (collators : List AccountId) (ledger : L) where
    genesis-clock : (genesis collators ledger).ocw.block_number ≡ 0
    unfolding build_genesis
    genesis-clock = ground arith

    -- Both pallets by themselves, and their clocks.
    parts-IsSound :
        {s : Storage L}
        → R (genesis collators ledger) s
        → s.wasmstore.block_number ≡ s.ocw.block_number
        → IsSound s
    parts-IsSound {s} r clock = record {
      scripts = Preserved.history-IsValid W collators s.wasmstore (wasmstore_history r);
      prices = (OcwHistory.prices_history-IsValid O verify ledger (omega arith) (ocw_history r)).0;
      one_clock = clock;
    }

    Reach-IsSound : {s : Storage L} → R (genesis collators ledger) s → IsSound s
    Reach-IsSound here = parts-IsSound here (sym genesis-clock)
    Reach-IsSound (next r st) = parts-IsSound (next r st) (Step-clock st (Reach-IsSound r))

    -- In every history of the runtime from its genesis, with calls of both pallets, unsigned ones that
    -- are let in, balances that move in any way, and new blocks: the storage of the wasmstore pallet
    -- and that of the ocw pallet are valid for the constants of the runtime, both pallets are at the
    -- same block, adding a price never panics, and no processor has staked anything.
    pub runtime_history-IsSound :
        {s : Storage L}
        → R (genesis collators ledger) s
        → IsSound s
          × ((who : Option AccountId) (p : ℕ) → (add_data O who p s.ocw).0 ≡ ok tt)
          × ((who : AccountId) (m : Meta)
              → lookup who s.ocw.staked_processors ≡ some m
              → m.total_stake ≡ 0)
    runtime_history-IsSound {s} r =
        let sound = Reach-IsSound r in
        let prices =
          OcwHistory.prices_history-IsValid O verify ledger (omega arith) (ocw_history r) in
        (
          sound,
          prices.1,
          λ who m there. omega (arith, (sound.prices.stakes_small who m there).below_minimum),
        )
