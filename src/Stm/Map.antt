-- ===== src/Stm/Map.antt =====
-- `TMap` against a map.
use effect_rs.Prelude.{ℕ, suc, ◌<◌, ◌≡◌, ◌∙◌, some, ok, arith}
use effect_rs.Stm.Heap.{
  Heap, World, version_mod, write_cell, write_all, turn, turn_with, pending, quiet,
}
use effect_rs.Stm.Txn.{sort_writes}
use effect_rs.Stm.Program.{flat_map}
use effect_rs.Stm.Cell.{read_stm, write_stm}
use effect_rs.Stm.Replays.{Replays, Replays-flat_map}
use effect_rs.Stm.CellReplays.{Replays-read_stm, Replays-write_stm}
use effect_rs.Stm.Commit.{commit}
use effect_rs.Stm.Alone.{alone_of_Replays}
use effect_rs.Stm.Structures.{HashMap, insert, remove, map_set, map_delete}
use effect_rs.Stm.Linear.{Spec, at_once, TookPlace, linearize}

module _ {K V : Type 0} (same_key : Discrete K) where
  abbrev pub map_set_spec : ℕ → K → V → Spec (HashMap K V) Unit
  map_set_spec m key value h = some (tt, write_cell h m (insert same_key (h m).value key value))

  abbrev pub map_delete_spec : ℕ → K → Spec (HashMap K V) Unit
  map_delete_spec m key h = some (tt, write_cell h m (remove same_key (h m).value key))

module _ {K V E : Type 0} (same_key : Discrete K) (m : ℕ) where
  Replays-map_set : (key : K) (value : V) → Replays (map_set {E = E} same_key m key value)
  unfolding map_set
  Replays-map_set key value =
      Replays-flat_map _ _ (Replays-read_stm m) (λ map. Replays-write_stm m _)

  map_set-alone :
      (fuel : ℕ) (key : K) (value : V) (h : Heap (HashMap K V))
      → commit (suc fuel) (map_set {E = E} same_key m key value) (quiet h)
        ≡ at_once (map_set_spec same_key m key value h)
  unfolding map_set flat_map read_stm write_stm turn turn_with write_all sort_writes
  map_set-alone fuel key value h =
      alone_of_Replays fuel (map_set same_key m key value) h (Replays-map_set key value)
      ∙ ground arith

  -- A `set` that returns has put the value under its key, at one point in time.
  pub map_set_linearizable :
      (key : K) (value : V) (fuel : ℕ) (w w' : World (HashMap K V))
      → pending w < version_mod
      → commit fuel (map_set {E = E} same_key m key value) w ≡ some (ok tt, w')
      → TookPlace (map_set_spec same_key m key value) w tt w'
  map_set_linearizable key value fuel w w' =
      linearize _ (map_set_spec same_key m key value) fuel w tt w' (Replays-map_set key value)
        (map_set-alone 0 key value)

  Replays-map_delete : (key : K) → Replays (map_delete {V = V} {E = E} same_key m key)
  unfolding map_delete
  Replays-map_delete key = Replays-flat_map _ _ (Replays-read_stm m) (λ map. Replays-write_stm m _)

  map_delete-alone :
      (fuel : ℕ) (key : K) (h : Heap (HashMap K V))
      → commit (suc fuel) (map_delete {E = E} same_key m key) (quiet h)
        ≡ at_once (map_delete_spec same_key m key h)
  unfolding map_delete flat_map read_stm write_stm turn turn_with write_all sort_writes
  map_delete-alone fuel key h =
      alone_of_Replays fuel (map_delete same_key m key) h (Replays-map_delete key) ∙ ground arith

  -- A `delete` that returns has removed its key, at one point in time.
  pub map_delete_linearizable :
      (key : K) (fuel : ℕ) (w w' : World (HashMap K V))
      → pending w < version_mod
      → commit fuel (map_delete {E = E} same_key m key) w ≡ some (ok tt, w')
      → TookPlace (map_delete_spec same_key m key) w tt w'
  map_delete_linearizable key fuel w w' =
      linearize _ (map_delete_spec same_key m key) fuel w tt w' (Replays-map_delete key)
        (map_delete-alone 0 key)
