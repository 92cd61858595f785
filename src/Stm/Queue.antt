-- ===== src/Stm/Queue.antt =====
-- `TQueue` against a bounded FIFO queue.
use effect_rs.Prelude.{
  ℕ, suc, ◌<◌, ◌≡◌, refl, ◌∙◌, Bool, true, false, none, some, List, [], ◌∷◌, ◌++◌, ok, arith,
  if◌then◌else◌, Bool-cases, inl, inr,
}
use effect_rs.Stm.Heap.{
  Heap, World, version_mod, write_cell, write_all, turn, turn_with, pending, quiet,
}
use effect_rs.Stm.Txn
use effect_rs.Stm.Txn.{Txn, sort_writes}
use effect_rs.Stm.Program.{succeed, retry_now, flat_map, map}
use effect_rs.Stm.Cell.{read_stm, write_stm}
use effect_rs.Stm.Replays.{
  Replays, Replays-flat_map, Replays-map, Replays-succeed, Replays-retry_now, Replays-if,
}
use effect_rs.Stm.CellReplays.{Replays-read_stm, Replays-write_stm}
use effect_rs.Stm.Commit.{commit}
use effect_rs.Stm.Alone.{alone_result, alone_of_Replays}
use effect_rs.Stm.Structures.{QueueState, is_full, offer, take_front, take}
use effect_rs.Stm.Linear.{Spec, at_once, TookPlace, linearize}

abbrev pub offer_spec : {A : Type 0} → ℕ → A → Spec (QueueState A) Bool
offer_spec q value h =
    let st = (h q).value in
    if is_full st.cap st.buf
    then some (false, h)
    else some (true, write_cell h q (record st { buf = st.buf ++ value ∷ [] }))

abbrev pub take_spec_from : {A : Type 0} → ℕ → List A → Spec (QueueState A) A
take_spec_from q [] h = none
take_spec_from q (x ∷ rest) h = some (x, write_cell h q (record (h q).value { buf = rest }))

abbrev pub take_spec : {A : Type 0} → ℕ → Spec (QueueState A) A
take_spec q h = take_spec_from q (h q).value.buf h

module _ {A E : Type 0} (q : ℕ) where
  Replays-offer : (value : A) → Replays (offer {E = E} q value)
  unfolding offer
  Replays-offer value = Replays-flat_map _ _ (Replays-read_stm q) (λ st.
      Replays-if (is_full st.cap st.buf) _ _ (Replays-succeed false)
        (Replays-map _ _ (Replays-write_stm q _)))

  offer-alone :
      (fuel : ℕ) (value : A) (h : Heap (QueueState A))
      → commit (suc fuel) (offer {E = E} q value) (quiet h) ≡ at_once (offer_spec q value h)
  unfolding offer flat_map map succeed read_stm write_stm turn turn_with write_all sort_writes
  offer-alone fuel value h =
      alone_of_Replays fuel (offer q value) h (Replays-offer value)
      ∙ elim (Bool-cases (is_full (h q).value.cap (h q).value.buf)) [
        | inl e ↦ ground arith
        | inr e ↦ ground arith
      ]

  -- An `offer` that returns has taken place at one point in time: there it appended the value and
  -- returned true, or, of a bounded queue that was full, returned false and changed nothing.
  pub offer_linearizable :
      (value : A) (fuel : ℕ) (w : World (QueueState A)) (b : Bool) (w' : World (QueueState A))
      → pending w < version_mod
      → commit fuel (offer {E = E} q value) w ≡ some (ok b, w')
      → TookPlace (offer_spec q value) w b w'
  offer_linearizable value fuel w b w' =
      linearize (offer q value) (offer_spec q value) fuel w b w' (Replays-offer value)
        (offer-alone 0 value)

  Replays-take_front : (st : QueueState A) (buf : List A) → Replays (take_front {E = E} q st buf)
  unfolding take_front
  Replays-take_front st [] = Replays-retry_now
  Replays-take_front st (x ∷ rest) = Replays-map _ _ (Replays-write_stm q _)

  Replays-take : Replays (take {A = A} {E = E} q)
  unfolding take
  Replays-take = Replays-flat_map _ _ (Replays-read_stm q) (λ st. Replays-take_front st st.buf)

  take_front-alone :
      (h : Heap (QueueState A)) (buf : List A)
      → alone_result h
          (flat_map (read_stm q) (λ st. take_front {E = E} q st buf) (quiet h) Txn.new).2
          (flat_map (read_stm q) (λ st. take_front {E = E} q st buf) (quiet h) Txn.new).0
        ≡ at_once (take_spec_from q buf h)
  unfolding take_front retry_now flat_map map read_stm write_stm turn turn_with write_all
      sort_writes
  take_front-alone h [] = refl
  take_front-alone h (x ∷ rest) = ground arith

  take-alone :
      (fuel : ℕ) (h : Heap (QueueState A))
      → commit (suc fuel) (take {A = A} {E = E} q) (quiet h) ≡ at_once (take_spec q h)
  unfolding take flat_map read_stm turn turn_with
  take-alone fuel h =
      alone_of_Replays fuel (take q) h Replays-take ∙ take_front-alone h (h q).value.buf

  -- A `take` that returns, where other threads have fewer than 2 ^ 64 cell writes to make, has taken
  -- place at one point, between turns of the other threads, where the queue was not empty: it
  -- removed the value at the front and returned it.
  pub take_linearizable :
      (fuel : ℕ) (w : World (QueueState A)) (a : A) (w' : World (QueueState A))
      → pending w < version_mod
      → commit fuel (take {E = E} q) w ≡ some (ok a, w')
      → TookPlace (take_spec q) w a w'
  take_linearizable fuel w a w' =
      linearize (take q) (take_spec q) fuel w a w' Replays-take (take-alone 0)
