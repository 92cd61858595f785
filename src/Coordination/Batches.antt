-- ===== src/Coordination/Batches.antt =====
-- The receives of a fixed number and of a range of values from a sliding queue:
-- crates/id_effect/src/coordination/queue.rs. `none` means that `recv` waits, or that the fuel of
-- the loop ran out.
use effect_rs.Prelude.{
  ℕ, zero, suc, Option, none, some, List, [], ◌∷◌, ◌++◌, Result, ok, err, ltb, ◌==◌, if◌then◌else◌,
  ◌&&◌,
}
use effect_rs.Coordination.Sliding.{QueueError, SlidingShared, recv, try_recv, take_more}

module _ {A : Type 0} where
  -- `for _ in 0..n`, receive into `out`.
  unfoldable pub receive_each :
      ℕ → List A → SlidingShared A → Option (Result (List A) QueueError × SlidingShared A)
  unfolding recv
  receive_each zero out s = some (ok out, s)
  receive_each (suc n) out s = elim (recv s) [
    | none ↦ none
    | some (ok v, s') ↦ receive_each n (out ++ v ∷ []) s'
    | some (err e, s') ↦ some (err e, s')
  ]

  unfoldable pub take_n :
      SlidingShared A → ℕ → Option (Result (List A) QueueError × SlidingShared A)
  unfolding receive_each
  take_n s n = if n == 0 then some (ok [], s) else receive_each n [] s

  -- What follows the first `min` values.
  unfoldable pub fill_to :
      ℕ
      → ℕ
      → Option (Result (List A) QueueError × SlidingShared A)
      → Option (Result (List A) QueueError × SlidingShared A)
  unfolding take_more
  fill_to fuel most none = none
  fill_to fuel most (some (ok out, s)) = take_more fuel (some most) out s
  fill_to fuel most (some (err e, s)) = some (err e, s)

  unfoldable pub take_between :
      ℕ → SlidingShared A → ℕ → ℕ → Option (Result (List A) QueueError × SlidingShared A)
  unfolding receive_each fill_to
  take_between fuel s least most =
      if ltb most least
      then some (ok [], s)
      else (if (least == 0) && (most == 0)
          then some (ok [], s)
          else fill_to fuel most (receive_each least [] s))

  unfoldable pub poll : SlidingShared A → Result (Option A) QueueError × SlidingShared A
  unfolding try_recv
  poll s = try_recv s
