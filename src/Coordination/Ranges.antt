-- ===== src/Coordination/Ranges.antt =====
-- What `take_n` and `take_between` of a sliding queue give, and when they wait.
use effect_rs.Prelude.{
  ℕ, zero, suc, ◌+◌, ◌<◌, ◌≡◌, refl, Bool-cases, ◌-◌, inl, inr, ap, ◌∙◌, Bool, true, false, Option,
  none, some, List, [], ◌∷◌, ◌++◌, arith, Result, ok, err, ltb, leb, ◌==◌, if◌then◌else◌, length,
  length-append,
}
use effect_rs.Coordination.Sliding.{QueueError, SlidingShared, disconnected, recv}
use effect_rs.Coordination.Batches.{receive_each, take_n, fill_to, take_between}
use effect_rs.Coordination.Offers.{drop, append_nil, snoc-append}
use effect_rs.Coordination.Takes.{take, drained, take_more-bound}

module _ {A : Type 0} where
  -- A receive that finds too few values waits, or answers that the queue is closed.
  abbrev pub starved : SlidingShared A → Option (Result (List A) QueueError × SlidingShared A)
  starved s = if s.open_ then none else some (err disconnected, record s { deque = [] })

  -- At least n values are there, and n + k are wanted.
  abbrev pub ranged :
      ℕ
      → ℕ
      → List A
      → SlidingShared A
      → List A
      → Option (Result (List A) QueueError × SlidingShared A)
  ranged n most out s xs =
      if leb n (length xs)
      then some (
          if leb most (length xs)
          then (ok (out ++ take most xs), record s { deque = drop most xs })
          else (drained s.open_ (out ++ xs), record s { deque = [] }))
      else starved s

  fill_to-starved :
      (fuel most n : ℕ) (out : List A) (open_ : Bool) (capacity : ℕ) (shut : Bool)
      → fill_to fuel most (
          receive_each
            (suc n)
            out
            (record { deque = []; open_ = open_; capacity = capacity; shut = shut }))
        ≡ starved (record { deque = []; open_ = open_; capacity = capacity; shut = shut })
  unfolding fill_to receive_each recv
  fill_to-starved fuel most n out true capacity shut = refl
  fill_to-starved fuel most n out false capacity shut = refl

  fill_to-ranged :
      (fuel n k : ℕ) (out : List A) (s : SlidingShared A) (xs : List A)
      → length xs < fuel
      → fill_to fuel (length out + (n + k)) (receive_each n out (record s { deque = xs }))
        ≡ ranged n (n + k) out s xs
  unfolding fill_to receive_each recv
  fill_to-ranged fuel zero k out s xs h =
      let all : leb 0 (length xs) ≡ true = ground arith in
      let same : 0 + k ≡ k = omega arith in rw (all, same) (take_more-bound fuel k out s xs h)
  fill_to-ranged fuel (suc n) k out s [] h =
      let short : leb (suc n) 0 ≡ false = ground arith in
      rw short (fill_to-starved fuel (length out + (suc n + k)) n out s.open_ s.capacity s.shut)
  fill_to-ranged fuel (suc n) k out s (x ∷ xs) h =
      let total = length-append out (x ∷ []) in
      let same : suc n + k ≡ suc (n + k) = omega arith in
      let bound : length out + suc (n + k) ≡ length (out ++ x ∷ []) + (n + k) =
        omega (arith, total) in
      let less : leb (suc n) (suc (length xs)) ≡ leb n (length xs) = ground arith in
      let less_all : leb (suc (n + k)) (suc (length xs)) ≡ leb (n + k) (length xs) = ground arith in
      let rest = fill_to-ranged fuel n k (out ++ x ∷ []) s xs (omega arith) in
      rw
        (
          same,
          bound,
          less,
          less_all,
          rest,
          snoc-append out x (take (n + k) xs),
          snoc-append out x xs,
        )
        refl

  fill_to-ordered :
      (fuel least most : ℕ) (s : SlidingShared A)
      → length s.deque < fuel
      → ltb most least ≡ false
      → fill_to fuel most (receive_each least [] s) ≡ ranged least most [] s s.deque
  fill_to-ordered fuel least most s h ordered =
      let same : most ≡ 0 + (least + (most - least)) = ground arith in
      let total : least + (most - least) ≡ most = ground arith in
      ap (λ m. fill_to fuel m (receive_each least [] s)) same
      ∙ fill_to-ranged fuel least (most - least) [] s s.deque h
      ∙ ap (λ m. ranged least m [] s s.deque) total

  -- `take_between` of a sliding queue, with fuel above the number of values held, on every branch:
  -- for an empty range it takes none; if the queue holds `max` values it takes the first `max` and
  -- leaves the others; if it holds fewer, but at least `min`, it empties the queue, and gives them
  -- all while the queue is open, but only the error after a shutdown; if it holds fewer than `min`
  -- it waits while the queue is open, and after a shutdown it empties the queue and gives only the
  -- error.
  pub take_between-ranges :
      (fuel least most : ℕ) (s : SlidingShared A)
      → length s.deque < fuel
      → take_between fuel s least most
        ≡ (if ltb most least then some (ok [], s) else ranged least most [] s s.deque)
  unfolding take_between
  take_between-ranges fuel zero zero s h =
      let all : leb 0 (length s.deque) ≡ true = ground arith in rw all refl
  take_between-ranges fuel zero (suc most) s h =
      let ordered : ltb (suc most) 0 ≡ false = ground arith in
      let some_of : (suc most == 0) ≡ false = ground arith in
      rw (ordered, some_of) (fill_to-ordered fuel zero (suc most) s h ordered)
  take_between-ranges fuel (suc least) most s h = elim (Bool-cases (ltb most (suc least))) [
    | inl reversed ↦ rw reversed refl
    | inr ordered ↦
        let some_of : (suc least == 0) ≡ false = ground arith in
        rw (ordered, some_of) (fill_to-ordered fuel (suc least) most s h ordered)
  ]

  take_whole : (n : ℕ) (xs : List A) → leb n (length xs) ≡ false → take n xs ≡ xs
  take_whole zero xs h = absurd (ground arith)
  take_whole (suc n) [] h = refl
  take_whole (suc n) (x ∷ xs) h = ap (λ ys. x ∷ ys) (take_whole n xs (ground arith))

  drop_whole : (n : ℕ) (xs : List A) → leb n (length xs) ≡ false → drop n xs ≡ []
  drop_whole zero xs h = absurd (ground arith)
  drop_whole (suc n) [] h = refl
  drop_whole (suc n) (x ∷ xs) h = drop_whole n xs (ground arith)

  -- `take_between` of a sliding queue that is open, with fuel above the number of values held, on
  -- every branch: for an empty range it takes none; if the queue holds at least `min` values it
  -- takes from the front as many as there are, up to `max`, and leaves the others in their order;
  -- if it holds fewer than `min` it waits.
  pub take_between-open :
      (fuel least most : ℕ) (s : SlidingShared A)
      → length s.deque < fuel
      → s.open_ ≡ true
      → take_between fuel s least most ≡ (
          if ltb most least
          then some (ok [], s)
          else (if leb least (length s.deque)
              then some (ok (take most s.deque), record s { deque = drop most s.deque })
              else none))
  take_between-open fuel least most s h is_open = elim (Bool-cases (leb most (length s.deque))) [
    | inl enough ↦ rw (take_between-ranges fuel least most s h, enough, is_open) refl
    | inr few ↦
        rw
          (
            take_between-ranges fuel least most s h,
            few,
            is_open,
            take_whole most s.deque few,
            drop_whole most s.deque few,
          )
          refl
  ]

  receive_each-ranged :
      (n : ℕ) (out : List A) (s : SlidingShared A) (xs : List A)
      → receive_each n out (record s { deque = xs }) ≡ (
          if leb n (length xs)
          then some (ok (out ++ take n xs), record s { deque = drop n xs })
          else starved s)
  unfolding receive_each recv
  receive_each-ranged zero out s xs =
      let all : leb 0 (length xs) ≡ true = ground arith in rw (all, append_nil out) refl
  receive_each-ranged (suc n) out s [] =
      let short : leb (suc n) 0 ≡ false = ground arith in
      rw short (elim (Bool-cases s.open_) [ inl e ↦ rw e refl | inr e ↦ rw e refl ])
  receive_each-ranged (suc n) out s (x ∷ xs) =
      let less : leb (suc n) (suc (length xs)) ≡ leb n (length xs) = ground arith in
      rw (less, receive_each-ranged n (out ++ x ∷ []) s xs, snoc-append out x (take n xs)) refl

  -- `take_n` of a sliding queue, on every branch: if the queue holds n values it takes the first n
  -- and leaves the others; if it holds fewer, it waits while the queue is open, and after a shutdown
  -- it empties the queue and gives only the error.
  pub take_n-ranges :
      (n : ℕ) (s : SlidingShared A)
      → take_n s n ≡ (
          if leb n (length s.deque)
          then some (ok (take n s.deque), record s { deque = drop n s.deque })
          else starved s)
  unfolding take_n
  take_n-ranges zero s = let all : leb 0 (length s.deque) ≡ true = ground arith in rw all refl
  take_n-ranges (suc n) s =
      let some_of : (suc n == 0) ≡ false = ground arith in
      rw some_of (receive_each-ranged (suc n) [] s s.deque)
