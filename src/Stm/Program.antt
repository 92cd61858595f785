-- ===== src/Stm/Program.antt =====
-- Transactional programs, `Stm`, and their combinators.
use effect_rs.Prelude.{Bool, if◌then◌else◌}
use effect_rs.Stm.Heap.{World}
use effect_rs.Stm.Txn.{Txn}

pub data Outcome {ℓ} (A E : Type ℓ) : Type ℓ where
  done : A → Outcome A E
  fail : E → Outcome A E
  retry : Outcome A E

-- A pass over the log; it reads shared cells, between which other threads run.
abbrev pub Stm {ℓ} : Type ℓ → Type ℓ → Type ℓ → Type ℓ
Stm V A E = World V → Txn V → Outcome A E × World V × Txn V

module _ {ℓ} {V A E : Type ℓ} where
  unfoldable pub succeed : A → Stm V A E
  succeed a w txn = (done a, w, txn)

  unfoldable pub fail_with : E → Stm V A E
  fail_with e w txn = (fail e, w, txn)

  unfoldable pub retry_now : Stm V A E
  retry_now w txn = (retry, w, txn)

  -- `or_else`: `that` goes on with the log that `self` has left.
  unfoldable pub or_else : Stm V A E → Stm V A E → Stm V A E
  or_else self that w txn =
      let (o, w1, txn1) = self w txn in
      elim o [ done a ↦ (done a, w1, txn1) | fail e ↦ (fail e, w1, txn1) | retry ↦ that w1 txn1 ]

module _ {ℓ} {V A B E : Type ℓ} where
  unfoldable pub flat_map : Stm V A E → (A → Stm V B E) → Stm V B E
  flat_map self f w txn =
      let (o, w1, txn1) = self w txn in
      elim o [ done a ↦ f a w1 txn1 | fail e ↦ (fail e, w1, txn1) | retry ↦ (retry, w1, txn1) ]

  unfoldable pub map : Stm V A E → (A → B) → Stm V B E
  map self f w txn =
      let (o, w1, txn1) = self w txn in
      elim o [
        | done a ↦ (done (f a), w1, txn1)
        | fail e ↦ (fail e, w1, txn1)
        | retry ↦ (retry, w1, txn1)
      ]

-- `check`: retry unless the condition holds.
unfoldable pub check {ℓ} : {V E : Type ℓ} → Bool → Stm V (Unit {ℓ}) E
unfolding succeed retry_now
check cond = if cond then succeed tt else retry_now
