-- ===== src/Wasmstore/Chain.antt =====
-- Histories of the chain: any calls from any origins, and new blocks, in any order; and the
-- invariant of the wasmstore storage.
use my_polkadot_orcale.Prelude.{suc, nat_eq, pair_eq, bytes_eq}
use my_polkadot_orcale.Model.{Origin}
use my_polkadot_orcale.Wasmstore.Types.{Config, State, Call}
use my_polkadot_orcale.Wasmstore.Calls.{dispatch}
use my_polkadot_orcale.Wasmstore.Jobs.{Continues-refl, Keeps, Keeps-trans, dispatch-Keeps}

module _ (c : Config) where
  -- A call, whatever its outcome, or the next block.
  pub data Step : State → State → Type 0 where
    called : (s : State) (call : Call) (o : Origin) → Step s (dispatch c call o s).1
    next_block : (s : State) → Step s (record s { block_number = suc s.block_number })

  pub data Reach (s : State) : State → Type 0 where
    here : Reach s s
    next : {t u : State} → Reach s t → Step t u → Reach s u

  pub Step-Keeps : {s t : State} → Step s t → Keeps s t
  Step-Keeps (called s call o) key job e = dispatch-Keeps c call o s key job e
  Step-Keeps (next_block s) key job e = (job, e, Continues-refl job)

  -- Through any history no job leaves the queue, changes its request or steps back.
  pub Reach-Keeps : {s t : State} → Reach s t → Keeps s t
  Reach-Keeps here key job e = (job, e, Continues-refl job)
  Reach-Keeps {s} (next {t} {u} r st) key job e =
      Keeps-trans s t u (Reach-Keeps r) (Step-Keeps st) key job e
