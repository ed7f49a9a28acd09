-- ===== src/Remoteproc/Lifecycle/Programs.antt =====
-- Programs of calls of the life cycle.
use openamp_core.Prelude.{Option, some, List, [], ◌∷◌, ℤ, ◌>>=◌}
use openamp_core.Remoteproc.State.{ProcState, Rproc}
use openamp_core.Remoteproc.Lifecycle.Relation.{Call, Move}
use openamp_core.Remoteproc.Lifecycle.Steps.{invoke}

-- What a program of calls may do, given the answers: one move for each call, in order.
pub data Walk : List Call → List ℤ → ProcState → ProcState → Type 0 where
  here : {a : ProcState} → Walk [] [] a a
  onward :
      {c : Call} {cs : List Call} {ret : ℤ} {rets : List ℤ} {a b d : ProcState}
      → Move c ret a b
      → Walk cs rets b d
      → Walk (c ∷ cs) (ret ∷ rets) a d

module _ {X : Type 0} where
  -- The calls of a program, one after another: the answers, and the remote processor.
  pub program : List Call → Rproc X → Option (List ℤ × Rproc X)
  program [] r = some ([], r)
  program (c ∷ cs) r = do (ret, s) ← invoke c r; (rets, t) ← program cs s; some (ret ∷ rets, t)
