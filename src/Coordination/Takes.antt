-- ===== src/Coordination/Takes.antt =====
-- What the batch receives of a sliding queue give.
use effect_rs.Prelude.{
  ℕ, zero, suc, ◌+◌, ◌<◌, ◌≡◌, refl, ap, ◌∙◌, Bool, true, false, Option, none, some, List, [], ◌∷◌,
  ◌++◌, arith, Result, ok, err, ltb, leb, ◌==◌, if◌then◌else◌, length, length-append,
}
use effect_rs.Coordination.Sliding.{
  QueueError, SlidingShared, disconnected, recv, try_recv, take_more, take_all, take_up_to, under,
}
use effect_rs.Coordination.Offers.{drop, append_nil, snoc-append}

module _ {A : Type 0} where
  abbrev pub take : ℕ → List A → List A
  take zero xs = []
  take (suc n) [] = []
  take (suc n) (x ∷ xs) = x ∷ take n xs

  -- An emptied queue answers by whether it is open.
  abbrev pub drained : Bool → List A → Result (List A) QueueError
  drained true out = ok out
  drained false out = err disconnected

  take_more-empty :
      (fuel : ℕ) (bound : Option ℕ) (out : List A) (open_ : Bool) (capacity : ℕ) (shut : Bool)
      → under bound (length out) ≡ true
      → take_more
          (suc fuel)
          bound
          out
          (record { deque = []; open_ = open_; capacity = capacity; shut = shut })
        ≡ some (
          drained open_ out,
          record { deque = []; open_ = open_; capacity = capacity; shut = shut },
        )
  unfolding take_more try_recv
  take_more-empty fuel bound out true capacity shut room = rw (take_more, room) refl
  take_more-empty fuel bound out false capacity shut room = rw (take_more, room) refl

  take_more-all :
      (fuel : ℕ) (out : List A) (s : SlidingShared A) (xs : List A)
      → length xs < fuel
      → take_more fuel none out (record s { deque = xs })
        ≡ some (drained s.open_ (out ++ xs), record s { deque = [] })
  unfolding take_more try_recv
  take_more-all zero out s xs h = ground arith
  take_more-all (suc fuel) out s [] h =
      rw (append_nil out) (take_more-empty fuel none out s.open_ s.capacity s.shut refl)
  take_more-all (suc fuel) out s (x ∷ xs) h =
      take_more-all fuel (out ++ x ∷ []) s xs (omega arith)
      ∙ ap (λ ys. some (drained s.open_ ys, record s { deque = [] })) (snoc-append out x xs)

  -- `take_all` of a sliding queue that holds values, with fuel for their number, empties it: while
  -- the queue is open it gives the values in order; after a shutdown it gives only the error, so
  -- that the values that were buffered are lost.
  pub take_all-drains :
      (fuel : ℕ) (s : SlidingShared A) (x : A) (xs : List A)
      → s.deque ≡ x ∷ xs
      → length xs < fuel
      → take_all fuel s ≡ some (drained s.open_ (x ∷ xs), record s { deque = [] })
  unfolding take_all recv
  take_all-drains fuel s x xs e h = rw e (take_more-all fuel (x ∷ []) s xs h)

  pub take_more-bound :
      (fuel k : ℕ) (out : List A) (s : SlidingShared A) (xs : List A)
      → length xs < fuel
      → take_more fuel (some (length out + k)) out (record s { deque = xs })
        ≡ some (
            if leb k (length xs)
            then (ok (out ++ take k xs), record s { deque = drop k xs })
            else (drained s.open_ (out ++ xs), record s { deque = [] }))
  unfolding take_more try_recv
  take_more-bound zero k out s xs h = ground arith
  take_more-bound (suc fuel) zero out s xs h =
      let full : ltb (length out) (length out + 0) ≡ false = ground arith in
      let none_left : leb 0 (length xs) ≡ true = ground arith in
      rw (take_more, full, none_left, append_nil out) refl
  take_more-bound (suc fuel) (suc k) out s [] h =
      let room : ltb (length out) (length out + suc k) ≡ true = ground arith in
      let short : leb (suc k) 0 ≡ false = ground arith in
      rw (short, append_nil out)
        (take_more-empty fuel (some (length out + suc k)) out s.open_ s.capacity s.shut room)
  take_more-bound (suc fuel) (suc k) out s (x ∷ xs) h =
      let room : ltb (length out) (length out + suc k) ≡ true = ground arith in
      let total = length-append out (x ∷ []) in
      let bound : length out + suc k ≡ length (out ++ x ∷ []) + k = omega (arith, total) in
      let less : leb (suc k) (suc (length xs)) ≡ leb k (length xs) = ground arith in
      let rest = take_more-bound fuel k (out ++ x ∷ []) s xs (omega arith) in
      rw (take_more, room, bound, rest, less, snoc-append out x (take k xs), snoc-append out x xs)
        refl

  -- `take_up_to` of a sliding queue that holds values, with fuel for their number: for no value it
  -- takes none; if the queue holds n values it takes the first n and leaves the others; if it holds
  -- fewer, it empties the queue, and gives them all while the queue is open, but only the error
  -- after a shutdown.
  pub take_up_to-splits :
      (fuel n : ℕ) (s : SlidingShared A) (x : A) (xs : List A)
      → s.deque ≡ x ∷ xs
      → length xs < fuel
      → take_up_to fuel s n
        ≡ some (
            if leb n (length (x ∷ xs))
            then (ok (take n (x ∷ xs)), record s { deque = drop n (x ∷ xs) })
            else (drained s.open_ (x ∷ xs), record s { deque = [] }))
  unfolding take_up_to recv
  take_up_to-splits fuel zero s x xs e h =
      let all : leb 0 (suc (length xs)) ≡ true = ground arith in
      rw all (ap (λ ds. some (ok [], record s { deque = ds })) e)
  take_up_to-splits fuel (suc k) s x xs e h =
      let positive : (suc k == 0) ≡ false = ground arith in
      let less : leb (suc k) (suc (length xs)) ≡ leb k (length xs) = ground arith in
      let same : suc k ≡ 1 + k = omega arith in
      rw (positive, e, less)
        (ap (λ n. take_more fuel (some n) (x ∷ []) (record s { deque = xs })) same
          ∙ take_more-bound fuel k (x ∷ []) s xs h)
