-- ===== src/Tests/Stms.antt =====
-- Transactions at concrete inputs: a counter that another thread changes, a queue, a semaphore, a
-- map.
use native.Mathlib.Decide.{ℕ_discrete}
use effect_rs.Prelude.{
  zero, suc, ap, ℕ, ◌+◌, ◌≡◌, ◌≢◌, Result, refl, true, none, some, [], ◌∷◌, ok, arith,
}
use effect_rs.Stm.Heap.{Heap, World, write_cell, write_all, turn, turns, pending, quiet}
use effect_rs.Stm.Txn
use effect_rs.Stm.Txn.{try_commit, sort_writes}
use effect_rs.Stm.Program.{Stm, retry, succeed, retry_now, or_else, flat_map, map}
use effect_rs.Stm.Cell.{read_stm, write_stm, update_stm}
use effect_rs.Stm.Commit.{commit}
use effect_rs.Stm.Serial.{SerialAt}
use effect_rs.Stm.Alone.{alone_result, or_else_keeps_writes}
use effect_rs.Stm.Built.{updating, commit_serializable, commit_alone}
use effect_rs.Stm.Completes.{release_completes}
use effect_rs.Stm.Semaphore.{release_spec}
use effect_rs.Stm.Progress.{commit_ends}
use effect_rs.Stm.Structures.{QueueState, HashMap, insert, offer, take, map_set, acquire, release}
use effect_rs.Stm.Linear.{TookPlace}
use effect_rs.Stm.Queue.{take_spec, take_linearizable}

abbrev fives : Heap ℕ
fives id = record { ver = 0; value = 5 }

-- Another thread writes 9 to cell 0 between the read and the commit.
abbrev disturbed : World ℕ
disturbed = record { heap = fives; others = [] ∷ ((0, 9) ∷ []) ∷ [] }

abbrev increment : Stm ℕ Unit Unit
increment = update_stm 0 (λ n. n + 1)

abbrev incremented : World ℕ
incremented = quiet (write_cell (write_cell fives 0 9) 0 10)

-- The first attempt fails its validation, the second commits 10.
increment_twice : commit 2 increment disturbed ≡ some (ok tt, incremented)
unfolding commit update_stm try_commit turn write_all write_cell
increment_twice = refl

commit_serializable_example : SerialAt increment disturbed tt incremented
unfolding pending
commit_serializable_example =
    commit_serializable increment 2 disturbed tt incremented (updating 0 (λ n. n + 1)) (omega arith)
      increment_twice

-- An increment that overwrites the 9 of the other thread has no serial execution.
abbrev lost_update : World ℕ
lost_update = quiet (write_cell (write_cell fives 0 9) 0 6)

turns-quiet : (k : ℕ) (h : Heap ℕ) → turns k (quiet h) ≡ quiet h
unfolding turn
turns-quiet zero h = refl
turns-quiet (suc k) h = turns-quiet k h

increment_after_nine : commit 1 increment (quiet (write_cell fives 0 9)) ≡ some (ok tt, incremented)
unfolding commit update_stm try_commit turn write_all write_cell
increment_after_nine = refl

six_or_ten : incremented ≢ lost_update
unfolding write_cell
six_or_ten e =
    let values : 10 ≡ 6 = ap (λ (w : World ℕ). (w.heap 0).value) e in absurd (omega (arith, values))

lost_update_refused : ¬ SerialAt increment disturbed tt lost_update
unfolding turn write_all
lost_update_refused (zero, left, c) = absurd (cc left)
lost_update_refused (suc zero, left, c) = absurd (cc left)
lost_update_refused (suc (suc k), left, c) =
    let still = turns-quiet k (write_cell fives 0 9) in
    six_or_ten (cc (increment_after_nine, rw still at c))

commit_alone_example :
    commit 1 increment (quiet fives)
    ≡ alone_result fives (increment (quiet fives) Txn.new).2 (increment (quiet fives) Txn.new).0
commit_alone_example = commit_alone increment 0 fives (updating 0 (λ n. n + 1))

increment_unblocked : (h : Heap ℕ) → (increment (quiet h) Txn.new).0 ≢ retry
unfolding update_stm flat_map
increment_unblocked h e = ground arith

commit_ends_example : (x : Result Unit Unit × World ℕ) × (commit 3 increment disturbed ≡ some x)
commit_ends_example = commit_ends increment (updating 0 (λ n. n + 1)) increment_unblocked disturbed

or_else_keeps_writes_example :
    commit {A = ℕ} {E = ℕ} 1
      (or_else (flat_map (write_stm 3 8) (λ _. retry_now)) (succeed 1))
      (quiet fives)
    ≡ some (ok 1, quiet (write_cell fives 3 8))
or_else_keeps_writes_example = or_else_keeps_writes fives 3 8 1

abbrev one_slot : Heap (QueueState ℕ)
one_slot id = record { ver = 0; value = record { buf = []; cap = some 1 } }

abbrev holding_four : World (QueueState ℕ)
holding_four = quiet (write_cell one_slot 0 (record { buf = 4 ∷ []; cap = some 1 }))

offer_runs : commit 1 (offer {E = Unit} 0 4) (quiet one_slot) ≡ some (ok true, holding_four)
unfolding commit offer flat_map map read_stm write_stm try_commit turn write_all
offer_runs = refl

abbrev emptied : World (QueueState ℕ)
emptied = quiet (
    write_cell (write_cell one_slot 0 (record { buf = 4 ∷ []; cap = some 1 })) 0
      (record { buf = []; cap = some 1 }))

take_runs : commit 1 (take {E = Unit} 0) holding_four ≡ some (ok 4, emptied)
unfolding commit take flat_map map read_stm write_stm try_commit turn write_all write_cell
take_runs = refl

release_completes_example :
    (w' : World ℕ) × (commit 3 (release {E = ⊥} 0) disturbed ≡ some (ok tt, w'))
    × TookPlace (release_spec 0) disturbed tt w'
unfolding pending
release_completes_example = release_completes 0 disturbed (omega arith)

take_linearizable_example : TookPlace (take_spec 0) holding_four 4 emptied
unfolding pending
take_linearizable_example = take_linearizable 0 1 holding_four 4 emptied (omega arith) take_runs

acquire_runs :
    commit 1 (acquire {E = Unit} 0) (quiet fives) ≡ some (ok tt, quiet (write_cell fives 0 4))
unfolding commit acquire flat_map read_stm write_stm try_commit turn write_all
acquire_runs = refl

release_runs :
    commit 1 (release {E = Unit} 0) (quiet fives) ≡ some (ok tt, quiet (write_cell fives 0 6))
unfolding commit release flat_map read_stm write_stm try_commit turn write_all
release_runs = refl

abbrev no_keys : Heap (HashMap ℕ ℕ)
no_keys id = record { ver = 0; value = λ key. none }

abbrev one_key : World (HashMap ℕ ℕ)
one_key = quiet (write_cell no_keys 0 (insert ℕ_discrete (λ key. none) 7 1))

map_set_runs :
    commit 1 (map_set {E = Unit} ℕ_discrete 0 7 1) (quiet no_keys) ≡ some (ok tt, one_key)
unfolding commit map_set flat_map read_stm write_stm try_commit turn write_all
map_set_runs = refl

-- Another thread fills the queue before the offer reads it.
abbrev contended : World (QueueState ℕ)
contended = record {
  heap = one_slot;
  others = ((0, record { buf = 4 ∷ []; cap = some 1 }) ∷ []) ∷ [];
}
