-- ===== src/Stm/Txn.antt =====
-- The log of one attempt, `Txn`, and its commit.
use effect_rs.Prelude.{
  ℕ, Bool, true, false, ◌&&◌, Option, none, some, List, [], ◌∷◌, ltb, ◌==◌, if◌then◌else◌,
}
use effect_rs.Stm.Heap.{Heap, World, Write, write_all, turn}

pub record Txn {ℓ} (V : Type ℓ) : Type ℓ where
  pub shadow : ℕ → Option V
  pub validated : ℕ → Bool
  pub read_validators : List (ℕ × ℕ)  -- the cell, and the version that was read
  pub commit_writes : List (Write V)

unfoldable pub set_validated : (ℕ → Bool) → ℕ → ℕ → Bool
set_validated m id j = if id == j then true else m j

module _ {ℓ} {V : Type ℓ} where
  abbrev pub new : Txn V
  new = record {
    shadow = λ id. none;
    validated = λ id. false;
    read_validators = [];
    commit_writes = [];
  }

  -- `HashMap::insert` of a write: it replaces an earlier write of the same cell.
  unfoldable pub insert_write : ℕ → V → List (Write V) → List (Write V)
  insert_write id v [] = (id, v) ∷ []
  insert_write id v ((j, x) ∷ ws) = if j == id then (id, v) ∷ ws else (j, x) ∷ insert_write id v ws

  unfoldable pub set_shadow : (ℕ → Option V) → ℕ → V → ℕ → Option V
  set_shadow m id v j = if id == j then some v else m j

  -- `ids.sort_unstable()`, by insertion.
  unfoldable pub insert_sorted : Write V → List (Write V) → List (Write V)
  insert_sorted (id, v) [] = (id, v) ∷ []
  insert_sorted (id, v) ((j, x) ∷ ws) =
      if ltb j id then (j, x) ∷ insert_sorted (id, v) ws else (id, v) ∷ (j, x) ∷ ws

  unfoldable pub sort_writes : List (Write V) → List (Write V)
  unfolding insert_sorted
  sort_writes [] = []
  sort_writes (w ∷ ws) = insert_sorted w (sort_writes ws)

  -- Every validator passes: the live version is the version that was read.
  unfoldable pub validate : Heap V → List (ℕ × ℕ) → Bool
  validate h [] = true
  validate h ((id, ver) ∷ vs) = (h id).ver == ver && validate h vs

  -- `try_commit`: other threads run until the lock is taken, and not while it is held.
  unfoldable pub try_commit : World V → Txn V → Bool × World V
  unfolding validate sort_writes
  try_commit w txn =
      let locked = turn w in
      if validate locked.heap txn.read_validators
      then (true, record locked { heap = write_all locked.heap (sort_writes txn.commit_writes) })
      else (false, locked)
