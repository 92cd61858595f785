-- ===== src/Stm/Completes.antt =====
-- `TQueue::offer` and `TSemaphore::release`, run by `commit`.
use effect_rs.Prelude.{ℕ, suc, ◌+◌, ◌%◌, ◌<◌, ◌≡◌, ◌≢◌, some, arith, Result, ok, err, length}
use effect_rs.Stm.Heap.{Heap, World, version_mod, pending, quiet}
use effect_rs.Stm.Txn
use effect_rs.Stm.Txn.{Txn}
use effect_rs.Stm.Program.{Stm, retry, flat_map}
use effect_rs.Stm.Cell.{read_stm, read_shadow, write_stm}
use effect_rs.Stm.Commit.{commit}
use effect_rs.Stm.Built.{Built, reading, writing, binding}
use effect_rs.Stm.Progress.{commit_ends}
use effect_rs.Stm.Structures.{release, usize_mod}
use effect_rs.Stm.Linear.{TookPlace}
use effect_rs.Stm.Semaphore.{release_spec, release_linearizable}

Built-release : (s : ℕ) → Built Unit (release {E = ⊥} s)
unfolding release
Built-release s = binding (reading s) (λ n. writing s ((n + 1) % usize_mod))

release_unblocked : (s : ℕ) (h : Heap ℕ) → (release {E = ⊥} s (quiet h) Txn.new).0 ≢ retry
unfolding release flat_map read_stm read_shadow write_stm
release_unblocked s h e = ground arith

release_done :
    (s : ℕ) (w : World ℕ)
    → pending w < version_mod
    → (x : Result Unit ⊥ × World ℕ) → commit (suc (length w.others)) (release {E = ⊥} s) w ≡ some x
    → (w' : World ℕ) × (commit (suc (length w.others)) (release {E = ⊥} s) w ≡ some (ok tt, w'))
      × TookPlace (release_spec s) w tt w'
release_done s w small (ok t, w') ran =
    (w', ran, release_linearizable s (suc (length w.others)) w w' small ran)
release_done s w small (err e, w') ran = absurd e

-- A `release` that cannot fail, run with one round more than the batches of writes that other
-- threads have still to make, fewer than 2 ^ 64 cell writes, returns, and has added one permit to
-- a 64-bit counter, at one point between turns of the
-- other threads.
pub release_completes :
    (s : ℕ) (w : World ℕ)
    → pending w < version_mod
    → (w' : World ℕ) × (commit (suc (length w.others)) (release {E = ⊥} s) w ≡ some (ok tt, w'))
      × TookPlace (release_spec s) w tt w'
release_completes s w small =
    let (x, ran) = commit_ends (release {E = ⊥} s) (Built-release s) (release_unblocked s) w in
    release_done s w small x ran
