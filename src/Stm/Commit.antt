-- ===== src/Stm/Commit.antt =====
-- `commit`: run a program until it commits. `none` means that the fuel ran out; `yield_now` lets
-- other threads run.
use effect_rs.Prelude.{ℕ, zero, suc, true, false, Option, none, some, Result, ok, err}
use effect_rs.Stm.Heap.{World, turn}
use effect_rs.Stm.Txn
use effect_rs.Stm.Txn.{try_commit}
use effect_rs.Stm.Program.{Stm, done, fail, retry}

module _ {ℓ} {V A E : Type ℓ} where
  unfoldable pub commit : ℕ → Stm V A E → World V → Option (Result A E × World V)
  commit zero stm w = none
  commit (suc fuel) stm w =
      let (o, w1, txn) = stm w Txn.new in
      elim o [
        | fail e ↦ some (err e, w1)
        | retry ↦ commit fuel stm (turn w1)
        | done a ↦
            let (committed, w2) = try_commit w1 txn in
            elim committed [ true ↦ some (ok a, w2) | false ↦ commit fuel stm (turn w2) ]
      ]
