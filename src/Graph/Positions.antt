-- ===== src/Graph/Positions.antt =====
-- Where a name stands in an order, and how many names an order can hold.
use effect_rs.Prelude.{
  ℕ, suc, ◌≡◌, ◌≤◌, ◌<◌, ap, true, false, List, [], ◌∷◌, ◌++◌, arith, ◌==◌, if◌then◌else◌, length,
  inl, inr, Bool-cases,
}
use effect_rs.Graph.Names.{mem, distinct}

-- The index of the first `v`, or the length of the list.
abbrev pub position : ℕ → List ℕ → ℕ
position v [] = 0
position v (x ∷ xs) = if x == v then 0 else suc (position v xs)

pub position-lt : (v : ℕ) (xs : List ℕ) → mem v xs ≡ true → position v xs < length xs
position-lt v [] m = ground arith
position-lt v (x ∷ xs) m = ground (arith, position-lt v xs)

pub mem-of-position : (v : ℕ) (xs : List ℕ) → position v xs < length xs → mem v xs ≡ true
mem-of-position v [] m = absurd (omega arith)
mem-of-position v (x ∷ xs) m = ground (arith, mem-of-position v xs)

pub position-le : (v : ℕ) (xs : List ℕ) → position v xs ≤ length xs
position-le v [] = omega arith
position-le v (x ∷ xs) = ground (arith, position-le v xs)

pub position-snoc :
    (v : ℕ) (xs : List ℕ) (y : ℕ)
    → position v (xs ++ y ∷ [])
      ≡ (if mem v xs then position v xs else (if y == v then length xs else suc (length xs)))
position-snoc v [] y = ground arith
position-snoc v (x ∷ xs) y = ground (arith, position-snoc v xs y)

-- Without the first `v`.
abbrev without : ℕ → List ℕ → List ℕ
without v [] = []
without v (x ∷ xs) = if x == v then xs else x ∷ without v xs

length-without : (v : ℕ) (xs : List ℕ) → mem v xs ≡ true → suc (length (without v xs)) ≡ length xs
length-without v [] m = ground arith
length-without v (x ∷ xs) m = ground (arith, length-without v xs)

mem-without :
    (v u : ℕ) (xs : List ℕ) → mem u xs ≡ true → (v == u) ≡ false → mem u (without v xs) ≡ true
mem-without v u [] m n = ground arith
mem-without v u (x ∷ xs) m n = ground (arith, mem-without v u xs)

-- Names that occur once each and all occur in `ys` are no more than `ys` has.
pub length-le :
    (xs ys : List ℕ)
    → distinct xs ≡ true
    → ((v : ℕ) → mem v xs ≡ true → mem v ys ≡ true)
    → length xs ≤ length ys
length-le [] ys d h = omega arith
length-le (x ∷ xs) ys d h =
    let here : mem x ys ≡ true = h x (ground arith) in
    let rest = length-le xs (without x ys) (ground arith) (λ v m.
      mem-without x v ys (h v (ground arith))
        (ground (arith, λ (e : x ≡ v). ap (λ k. mem k xs) e))) in
    omega (arith, length-without x ys here, rest)

-- If they are as many as `ys` has, they are all of `ys`.
pub mem-full :
    (xs ys : List ℕ)
    → distinct xs ≡ true
    → ((v : ℕ) → mem v xs ≡ true → mem v ys ≡ true)
    → length ys ≤ length xs
    → (v : ℕ) → mem v ys ≡ true
    → mem v xs ≡ true
mem-full xs ys d h few v m = elim (Bool-cases (mem v xs)) [
  | inl e ↦ e
  | inr e ↦
      let more =
        length-le (v ∷ xs) ys (ground arith)
          (λ u n. ground (arith, h u, λ (same : v ≡ u). ap (λ k. mem k ys) same)) in
      absurd (omega (arith, more))
]
