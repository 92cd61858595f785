-- ===== src/Coordination/Sliding.antt =====
-- The sliding queue, and the operations of `Queue` on it:
-- crates/id_effect/src/coordination/queue.rs. The state is behind one lock, and each operation
-- here runs with no other task between its locks. `none` means that `recv` waits, or that the fuel
-- of a loop ran out.
use effect_rs.Prelude.{
  ℕ, zero, suc, Bool, true, false, Option, none, some, List, [], ◌∷◌, ◌++◌, Result, ok, err, ltb,
  leb, ◌==◌, if◌then◌else◌, length, max,
}

pub data QueueError : Type 0 where
  disconnected : QueueError

pub record SlidingShared (A : Type 0) : Type 0 where
  pub deque : List A
  pub open_ : Bool
  pub capacity : ℕ
  pub shut : Bool  -- the value of the watch channel

-- `out.len() < n`; `take_all` has no bound.
abbrev pub under : Option ℕ → ℕ → Bool
under none n = true
under (some bound) n = ltb n bound

module _ {A : Type 0} where
  unfoldable pub new : ℕ → SlidingShared A
  new capacity = record { deque = []; open_ = true; capacity = max capacity 1; shut = false }

  -- `while deque.len() > capacity`, pop the front.
  unfoldable pub slide : ℕ → List A → List A
  slide capacity [] = []
  slide capacity (x ∷ xs) =
      let rest = slide capacity xs in if ltb capacity (suc (length xs)) then rest else x ∷ xs

  unfoldable pub offer_or_retain : SlidingShared A → A → Result Unit A × SlidingShared A
  unfolding slide
  offer_or_retain s value =
      if s.open_
      then (ok tt, record s { deque = slide s.capacity (s.deque ++ value ∷ []) })
      else (err value, s)

  unfoldable pub offer : SlidingShared A → A → Bool × SlidingShared A
  unfolding offer_or_retain
  offer s value =
      let (r, s') = offer_or_retain s value in (elim r [ ok t ↦ true | err v ↦ false ], s')

  unfoldable pub recv : SlidingShared A → Option (Result A QueueError × SlidingShared A)
  recv s = elim s.deque [
    | [] ↦ if s.open_ then none else some (err disconnected, s)
    | v ∷ rest ↦ some (ok v, record s { deque = rest })
  ]

  unfoldable pub try_recv : SlidingShared A → Result (Option A) QueueError × SlidingShared A
  try_recv s = elim s.deque [
    | [] ↦ (if s.open_ then ok none else err disconnected, s)
    | v ∷ rest ↦ (ok (some v), record s { deque = rest })
  ]

  unfoldable pub is_full : SlidingShared A → Bool
  is_full s = leb s.capacity (length s.deque)

  unfoldable pub shutdown : SlidingShared A → SlidingShared A
  shutdown s = record s { open_ = false; shut = true }

  -- `offer_all`, with the values that could not be stored so far.
  unfoldable pub offer_each : List A → SlidingShared A → List A → List A × SlidingShared A
  unfolding offer_or_retain
  offer_each left s [] = (left, s)
  offer_each left s (v ∷ vs) =
      let (r, s') = offer_or_retain s v in
      offer_each (elim r [ ok t ↦ left | err v ↦ left ++ v ∷ [] ]) s' vs

  unfoldable pub offer_all : SlidingShared A → List A → List A × SlidingShared A
  unfolding offer_each
  offer_all s vs = offer_each [] s vs

  -- The loop of `take_all`, `take_up_to` and `take_between`.
  unfoldable pub take_more :
      ℕ
      → Option ℕ
      → List A
      → SlidingShared A
      → Option (Result (List A) QueueError × SlidingShared A)
  unfolding try_recv
  take_more zero bound out s = none
  take_more (suc fuel) bound out s = elim (under bound (length out)) [
    | false ↦ some (ok out, s)
    | true ↦
        let (r, s') = try_recv s in
        elim r [
          | ok none ↦ some (ok out, s')
          | ok (some v) ↦ take_more fuel bound (out ++ v ∷ []) s'
          | err e ↦ some (err e, s')
        ]
  ]

  -- What follows the first `recv`.
  abbrev pub take_rest :
      ℕ
      → Option ℕ
      → Option (Result A QueueError × SlidingShared A)
      → Option (Result (List A) QueueError × SlidingShared A)
  take_rest fuel bound none = none
  take_rest fuel bound (some (ok first, s)) = take_more fuel bound (first ∷ []) s
  take_rest fuel bound (some (err e, s)) = some (err e, s)

  unfoldable pub take_all :
      ℕ → SlidingShared A → Option (Result (List A) QueueError × SlidingShared A)
  unfolding recv take_more
  take_all fuel s = take_rest fuel none (recv s)

  unfoldable pub take_up_to :
      ℕ → SlidingShared A → ℕ → Option (Result (List A) QueueError × SlidingShared A)
  unfolding recv take_more
  take_up_to fuel s n = if n == 0 then some (ok [], s) else take_rest fuel (some n) (recv s)
