-- ===== src/Coordination/Offers.antt =====
-- What a sliding queue keeps.
use effect_rs.Prelude.{
  ℕ, zero, suc, ◌+◌, ◌-◌, ◌≤◌, ◌≡◌, refl, sym, ap, ◌∙◌, Bool, true, false, List, [], ◌∷◌, ◌++◌,
  arith, ok, err, ltb, if◌then◌else◌, length, length-append, inl, inr, Bool-cases,
}
use effect_rs.Coordination.Sliding.{SlidingShared, slide, offer_or_retain, offer_each, offer_all}

if_true : {A : Type 0} (x y : A) (b : Bool) → b ≡ true → (if b then x else y) ≡ x
if_true x y b e = rw e refl

if_false : {A : Type 0} (x y : A) (b : Bool) → b ≡ false → (if b then x else y) ≡ y
if_false x y b e = rw e refl

module _ {A : Type 0} where
  abbrev pub drop : ℕ → List A → List A
  drop zero xs = xs
  drop (suc n) [] = []
  drop (suc n) (x ∷ xs) = drop n xs

  -- The last `n` values.
  abbrev pub keep_last : ℕ → List A → List A
  keep_last n xs = drop (length xs - n) xs

  pub drop_nil : (n : ℕ) → drop n [] ≡ []
  drop_nil zero = refl
  drop_nil (suc n) = refl

  slide-keep_last : (capacity : ℕ) (xs : List A) → slide capacity xs ≡ keep_last capacity xs
  unfolding slide
  slide-keep_last capacity [] = sym (drop_nil (0 - capacity))
  slide-keep_last capacity (x ∷ xs) = elim (Bool-cases (ltb capacity (suc (length xs)))) [
    | inl e ↦
        let longer : suc (length xs) - capacity ≡ suc (length xs - capacity) = ground arith in
        rw (e, longer) (slide-keep_last capacity xs)
    | inr e ↦ let fits : suc (length xs) - capacity ≡ 0 = ground arith in rw (e, fits) refl
  ]

  length-drop : (n : ℕ) (xs : List A) → length (drop n xs) ≡ length xs - n
  length-drop zero xs = omega arith
  length-drop (suc n) [] = omega arith
  length-drop (suc n) (x ∷ xs) = omega (arith, length-drop n xs)

  drop-append : (n : ℕ) (xs ys : List A) → n ≤ length xs → drop n (xs ++ ys) ≡ drop n xs ++ ys
  drop-append zero xs ys h = refl
  drop-append (suc n) [] ys h = ground arith
  drop-append (suc n) (x ∷ xs) ys h = drop-append n xs ys (omega arith)

  drop-drop : (m n : ℕ) (xs : List A) → drop m (drop n xs) ≡ drop (n + m) xs
  drop-drop m zero xs = ap (λ k. drop k xs) (omega arith)
  drop-drop m (suc n) [] = drop_nil m ∙ sym (drop_nil (suc n + m))
  drop-drop m (suc n) (x ∷ xs) =
      drop-drop m n xs ∙ ap (λ k. drop k (x ∷ xs)) {x = suc (n + m)} {y = suc n + m} (omega arith)

  keep_last-append :
      (c : ℕ) (xs ys : List A) → keep_last c (keep_last c xs ++ ys) ≡ keep_last c (xs ++ ys)
  keep_last-append c xs ys =
      let k = length xs - c in
      let inside = drop-append k xs ys (omega arith) in
      let kept = length-drop k xs in
      let total = length-append (drop k xs) ys in
      let all = length-append xs ys in
      ap (drop (length (drop k xs ++ ys) - c)) (sym inside)
      ∙ drop-drop (length (drop k xs ++ ys) - c) k (xs ++ ys)
      ∙ ap (λ n. drop n (xs ++ ys)) {x = k + (length (drop k xs ++ ys) - c)}
          {y = length (xs ++ ys) - c} (omega (arith, kept, total, all))

  pub snoc-append : (xs : List A) (v : A) (vs : List A) → (xs ++ v ∷ []) ++ vs ≡ xs ++ v ∷ vs
  snoc-append [] v vs = refl
  snoc-append (x ∷ xs) v vs = ap (λ ys. x ∷ ys) (snoc-append xs v vs)

  pub append_nil : (xs : List A) → xs ++ [] ≡ xs
  append_nil [] = refl
  append_nil (x ∷ xs) = ap (λ ys. x ∷ ys) (append_nil xs)

  offer_open :
      (s : SlidingShared A) (v : A)
      → s.open_ ≡ true
      → offer_or_retain s v ≡ (ok tt, record s { deque = keep_last s.capacity (s.deque ++ v ∷ []) })
  unfolding offer_or_retain
  offer_open s v is_open =
      if_true _ _ s.open_ is_open
      ∙ ap (λ ds. (ok tt, record s { deque = ds })) (slide-keep_last s.capacity (s.deque ++ v ∷ []))

  offer_closed : (s : SlidingShared A) (v : A) → s.open_ ≡ false → offer_or_retain s v ≡ (err v, s)
  unfolding offer_or_retain
  offer_closed s v is_closed = if_false _ _ s.open_ is_closed

  offer_each-open :
      (left : List A) (s : SlidingShared A) (vs : List A)
      → s.open_ ≡ true
      → length s.deque ≤ s.capacity
      → offer_each left s vs ≡ (left, record s { deque = keep_last s.capacity (s.deque ++ vs) })
  unfolding offer_each
  offer_each-open left s [] is_open small =
      let all : length s.deque - s.capacity ≡ 0 = omega arith in rw (append_nil s.deque, all) refl
  offer_each-open left s (v ∷ vs) is_open small =
      let kept = length-drop (length (s.deque ++ v ∷ []) - s.capacity) (s.deque ++ v ∷ []) in
      rw (offer_open s v is_open) (
        offer_each-open left (record s { deque = keep_last s.capacity (s.deque ++ v ∷ []) }) vs
          is_open (omega (arith, kept))
        ∙ ap (λ ds. (left, record s { deque = ds }))
            (keep_last-append s.capacity (s.deque ++ v ∷ []) vs
              ∙ ap (keep_last s.capacity) (snoc-append s.deque v vs)))

  offer_each-closed :
      (left : List A) (s : SlidingShared A) (vs : List A)
      → s.open_ ≡ false
      → offer_each left s vs ≡ (left ++ vs, s)
  unfolding offer_each
  offer_each-closed left s [] is_closed = ap (λ rest. (rest, s)) (sym (append_nil left))
  offer_each-closed left s (v ∷ vs) is_closed = rw (offer_closed s v is_closed) (
      offer_each-closed (left ++ v ∷ []) s vs is_closed
      ∙ ap (λ rest. (rest, s)) (snoc-append left v vs))

  -- A sliding queue that holds at most its capacity takes every value of `offer_all` while it is
  -- open, and then holds the last `capacity` of the values it held and the values offered, in
  -- order; when it is shut down it takes none, and gives all of them back.
  pub offer_all-keeps_last :
      (s : SlidingShared A) (vs : List A)
      → length s.deque ≤ s.capacity
      → offer_all s vs ≡ (
          if s.open_
          then ([], record s { deque = keep_last s.capacity (s.deque ++ vs) })
          else (vs, s))
  unfolding offer_all
  offer_all-keeps_last s vs small = elim (Bool-cases s.open_) [
    | inl e ↦ offer_each-open [] s vs e small ∙ sym (if_true _ _ s.open_ e)
    | inr e ↦ offer_each-closed [] s vs e ∙ sym (if_false _ _ s.open_ e)
  ]
