-- ===== src/Tests/Queues.antt =====
-- A sliding queue of two places.
use effect_rs.Prelude.{
  ℕ, ◌≡◌, refl, true, false, some, [], ◌∷◌, ◌++◌, ok, arith, if◌then◌else◌, leb, length, ltb, none,
  err,
}
use effect_rs.Coordination.Sliding.{
  disconnected, SlidingShared, offer_all, recv, try_recv, take_more,
}
use effect_rs.Coordination.Batches.{receive_each, take_n, fill_to, take_between, poll}
use effect_rs.Coordination.Ranges.{take_between-open}
use effect_rs.Coordination.Takes.{take}
use effect_rs.Coordination.Offers.{keep_last, drop, offer_all-keeps_last}

abbrev two_held : SlidingShared ℕ
two_held = record { deque = 1 ∷ 2 ∷ []; open_ = true; capacity = 2; shut = false }

abbrev closed_held : SlidingShared ℕ
closed_held = record { deque = 1 ∷ 2 ∷ []; open_ = false; capacity = 2; shut = true }

offer_all-keeps_last_example : offer_all two_held (3 ∷ []) ≡ (
    if two_held.open_
    then ([], record two_held { deque = keep_last 2 (two_held.deque ++ 3 ∷ []) })
    else (3 ∷ [], two_held))
offer_all-keeps_last_example = offer_all-keeps_last two_held (3 ∷ []) (omega arith)

take_between-open_example : take_between 3 two_held 1 3 ≡ (
    if ltb 3 1
    then some (ok [], two_held)
    else (if leb 1 (length two_held.deque)
        then some (ok (take 3 two_held.deque), record two_held { deque = drop 3 two_held.deque })
        else none))
take_between-open_example = take_between-open 3 1 3 two_held (omega arith) refl

-- A range of a closed queue gives the error, although values were buffered.
range_after_shutdown :
    take_between 3 closed_held 1 3 ≡ some (err disconnected, record closed_held { deque = [] })
unfolding take_between receive_each fill_to take_more recv try_recv
range_after_shutdown = refl

more_than_held : take_n two_held 3 ≡ none
unfolding take_n receive_each recv
more_than_held = refl

polled : poll two_held ≡ (ok (some 1), record two_held { deque = 2 ∷ [] })
unfolding poll try_recv
polled = refl
