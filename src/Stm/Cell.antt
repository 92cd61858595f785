-- ===== src/Stm/Cell.antt =====
-- The operations of `TRef` inside a transaction.
use effect_rs.Prelude.{ℕ, Option, none, some, [], ◌∷◌, ◌++◌, if◌then◌else◌}
use effect_rs.Stm.Heap.{World, turn}
use effect_rs.Stm.Txn.{Txn, insert_write, set_shadow, set_validated}
use effect_rs.Stm.Program.{Stm, done, flat_map, map}

module _ {ℓ} {V : Type ℓ} where
  -- The live branch of `read_stm`, in the world at the read; a validator is added unless the cell
  -- has one.
  unfoldable pub record_read : ℕ → World V → Txn V → Txn V
  unfolding set_shadow set_validated
  record_read r w txn = record txn {
    shadow = set_shadow txn.shadow r (w.heap r).value;
    validated = set_validated txn.validated r;
    read_validators =
        if txn.validated r
        then txn.read_validators
        else txn.read_validators ++ (r, (w.heap r).ver) ∷ [];
  }

  unfoldable pub read_shadow : {E : Type ℓ} → ℕ → Option V → Stm V V E
  unfolding record_read
  read_shadow r (some v) w txn = (done v, w, txn)
  read_shadow r none w txn = let w1 = turn w in (done (w1.heap r).value, w1, record_read r w1 txn)

  unfoldable pub read_stm : {E : Type ℓ} → ℕ → Stm V V E
  unfolding read_shadow
  read_stm r w txn = read_shadow r (txn.shadow r) w txn

  unfoldable pub add_validator : ℕ → World V → Txn V → Txn V
  unfolding set_validated
  add_validator r w txn = record txn {
    validated = set_validated txn.validated r;
    read_validators = txn.read_validators ++ (r, (w.heap r).ver) ∷ [];
  }

  -- `ensure_validated` reads the live version, unless the cell has a validator.
  unfoldable pub ensure_validated : ℕ → World V → Txn V → World V × Txn V
  unfolding add_validator
  ensure_validated r w txn =
      let w1 = turn w in if txn.validated r then (w, txn) else (w1, add_validator r w1 txn)

  unfoldable pub record_write : ℕ → V → Txn V → Txn V
  unfolding set_shadow insert_write
  record_write r v txn = record txn {
    shadow = set_shadow txn.shadow r v;
    commit_writes = insert_write r v txn.commit_writes;
  }

  unfoldable pub write_stm : {E : Type ℓ} → ℕ → V → Stm V (Unit {ℓ}) E
  unfolding ensure_validated record_write
  write_stm r v w txn =
      let (w1, txn1) = ensure_validated r w txn in (done tt, w1, record_write r v txn1)

  -- The matches on the inner outcomes are those of `flat_map` and `map`.
  unfoldable pub update_stm : {E : Type ℓ} → ℕ → (V → V) → Stm V (Unit {ℓ}) E
  unfolding read_stm write_stm flat_map
  update_stm r f = flat_map (read_stm r) (λ cur. write_stm r (f cur))

  unfoldable pub modify_stm : {B E : Type ℓ} → ℕ → (V → B × V) → Stm V B E
  unfolding read_stm write_stm flat_map map
  modify_stm r f = flat_map (read_stm r) (λ cur. map (write_stm r (f cur).1) (λ _. (f cur).0))
