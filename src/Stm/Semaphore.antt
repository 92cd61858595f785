-- ===== src/Stm/Semaphore.antt =====
-- `TSemaphore` against a counter that blocks at zero.
use effect_rs.Prelude.{
  ℕ, suc, ◌+◌, ◌-◌, ◌%◌, ◌<◌, ◌≡◌, ◌∙◌, none, some, ok, arith, ◌==◌, if◌then◌else◌, Bool-cases, inl,
  inr,
}
use effect_rs.Stm.Heap.{
  Heap, World, version_mod, write_cell, write_all, turn, turn_with, pending, quiet,
}
use effect_rs.Stm.Txn.{sort_writes}
use effect_rs.Stm.Program.{retry_now, flat_map}
use effect_rs.Stm.Cell.{read_stm, write_stm}
use effect_rs.Stm.Replays.{Replays, Replays-flat_map, Replays-retry_now, Replays-if}
use effect_rs.Stm.CellReplays.{Replays-read_stm, Replays-write_stm}
use effect_rs.Stm.Commit.{commit}
use effect_rs.Stm.Alone.{alone_of_Replays}
use effect_rs.Stm.Structures.{usize_mod, acquire, release}
use effect_rs.Stm.Linear.{Spec, at_once, TookPlace, linearize}

abbrev pub acquire_spec : ℕ → Spec ℕ Unit
acquire_spec s h = if (h s).value == 0 then none else some (tt, write_cell h s ((h s).value - 1))

abbrev pub release_spec : ℕ → Spec ℕ Unit
release_spec s h = some (tt, write_cell h s (((h s).value + 1) % usize_mod))

module _ {E : Type 0} (s : ℕ) where
  Replays-acquire : Replays (acquire {E = E} s)
  unfolding acquire
  Replays-acquire =
      Replays-flat_map _ _ (Replays-read_stm s)
        (λ n. Replays-if (n == 0) _ _ Replays-retry_now (Replays-write_stm s (n - 1)))

  acquire-alone :
      (fuel : ℕ) (h : Heap ℕ)
      → commit (suc fuel) (acquire {E = E} s) (quiet h) ≡ at_once (acquire_spec s h)
  unfolding acquire flat_map retry_now read_stm write_stm turn turn_with write_all sort_writes
  acquire-alone fuel h =
      alone_of_Replays fuel (acquire s) h Replays-acquire
      ∙ elim (Bool-cases ((h s).value == 0)) [ inl e ↦ ground arith | inr e ↦ ground arith ]

  Replays-release : Replays (release {E = E} s)
  unfolding release
  Replays-release =
      Replays-flat_map _ _ (Replays-read_stm s) (λ n. Replays-write_stm s ((n + 1) % usize_mod))

  release-alone :
      (fuel : ℕ) (h : Heap ℕ)
      → commit (suc fuel) (release {E = E} s) (quiet h) ≡ at_once (release_spec s h)
  unfolding release flat_map read_stm write_stm turn turn_with write_all sort_writes
  release-alone fuel h = alone_of_Replays fuel (release s) h Replays-release ∙ ground arith

  -- An `acquire` that returns has taken one permit, at one point in time where there was at least
  -- one.
  pub acquire_linearizable :
      (fuel : ℕ) (w w' : World ℕ)
      → pending w < version_mod
      → commit fuel (acquire {E = E} s) w ≡ some (ok tt, w')
      → TookPlace (acquire_spec s) w tt w'
  acquire_linearizable fuel w w' =
      linearize (acquire s) (acquire_spec s) fuel w tt w' Replays-acquire (acquire-alone 0)

  -- A `release` that returns has added one permit to a 64-bit counter, at one point in time.
  pub release_linearizable :
      (fuel : ℕ) (w w' : World ℕ)
      → pending w < version_mod
      → commit fuel (release {E = E} s) w ≡ some (ok tt, w')
      → TookPlace (release_spec s) w tt w'
  release_linearizable fuel w w' =
      linearize (release s) (release_spec s) fuel w tt w' Replays-release (release-alone 0)
