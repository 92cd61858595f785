-- ===== src/Stm/Heap.antt =====
-- The shared cells, and the other threads. A `TRef` is the number of its cell (the address of its
-- `Inner`); all cells of a heap hold values of one type `V`. What other threads write between two
-- of this thread's accesses to shared memory is a batch of `others`: any list of single cell
-- writes, so that a commit of theirs may be seen half done.
use effect_rs.Prelude.{ℕ, zero, suc, ◌+◌, ◌%◌, ◌^◌, List, [], ◌∷◌, ◌==◌, if◌then◌else◌, length}

-- `Inner`: the version is an AtomicU64.
pub record Cell {ℓ} (V : Type ℓ) : Type ℓ where
  pub ver : ℕ
  pub value : V

abbrev pub Heap {ℓ} : Type ℓ → Type ℓ
Heap V = ℕ → Cell V

abbrev pub Write {ℓ} : Type ℓ → Type ℓ
Write V = ℕ × V

abbrev pub version_mod : ℕ
version_mod = 2 ^ 64

module _ {ℓ} {V : Type ℓ} where
  -- `*g = v; ver.fetch_add(1)`, which wraps.
  unfoldable pub write_cell : Heap V → ℕ → V → Heap V
  write_cell h id v j =
      if id == j then record { ver = ((h id).ver + 1) % version_mod; value = v } else h j

  unfoldable pub write_all : Heap V → List (Write V) → Heap V
  write_all h [] = h
  write_all h ((id, v) ∷ ws) = write_all (write_cell h id v) ws

pub record World {ℓ} (V : Type ℓ) : Type ℓ where
  pub heap : Heap V
  pub others : List (List (Write V))

module _ {ℓ} {V : Type ℓ} where
  -- The other threads run, before this thread's next access.
  unfoldable pub turn_with : Heap V → List (List (Write V)) → World V
  turn_with h [] = record { heap = h; others = [] }
  turn_with h (batch ∷ rest) = record { heap = write_all h batch; others = rest }

  unfoldable pub turn : World V → World V
  unfolding turn_with
  turn w = turn_with w.heap w.others

  -- The world after k turns of the other threads.
  abbrev pub turns : ℕ → World V → World V
  turns zero w = w
  turns (suc k) w = turns k (turn w)

  -- A world in which no other thread writes.
  abbrev pub quiet : Heap V → World V
  quiet h = record { heap = h; others = [] }

  unfoldable pub pending_in : List (List (Write V)) → ℕ
  pending_in [] = 0
  pending_in (batch ∷ rest) = length batch + pending_in rest

  -- The cell writes that other threads have still to make.
  unfoldable pub pending : World V → ℕ
  unfolding pending_in
  pending w = pending_in w.others
