-- ===== src/Stm/Later.antt =====
-- Heaps in the order of time: one is later than another by at most n cell writes.
use effect_rs.Prelude.{
  ℕ, zero, suc, ◌+◌, ◌%◌, ◌≤◌, ◌<◌, ◌≡◌, refl, ap, ◌∙◌, List, [], ◌∷◌, Bool-cases, inl, inr, arith,
  ◌==◌, length,
}
use effect_rs.Stm.Heap.{
  Cell, Heap, World, Write, version_mod, write_cell, write_all, turn, turn_with, turns, pending,
  pending_in,
}

module _ {ℓ} {V : Type ℓ} where
  -- `d` is `c` after k of the n writes: the same cell, or one whose version has gone on by k.
  abbrev pub CellLater : ℕ → Cell V → Cell V → Type ℓ
  CellLater n c d =
      (k : ℕ) × (k ≤ n) × (k ≡ 0 → d ≡ c) × (0 < k → d.ver ≡ (c.ver + k) % version_mod)

  pub CellLater-refl : (n : ℕ) (c : Cell V) → CellLater n c c
  CellLater-refl n c = (0, omega arith, λ _. refl, λ h. omega arith)

  pub CellLater-trans :
      (m n : ℕ) (b c d : Cell V) → CellLater m b c → CellLater n c d → CellLater (m + n) b d
  CellLater-trans m n b c d (zero, hm, same, step) (k, hn, same', step') =
      let e : c ≡ b = same refl in
      (
        k,
        omega arith,
        λ z. same' z ∙ e,
        λ p. step' p ∙ ap (λ (x : Cell V). (x.ver + k) % version_mod) e,
      )
  CellLater-trans m n b c d (suc j, hm, same, step) (zero, hn, same', step') =
      let e : d ≡ c = same' refl in
      (suc j, omega arith, λ z. absurd (omega arith), λ p. ap (λ (x : Cell V). x.ver) e ∙ step p)
  CellLater-trans m n b c d (suc j, hm, same, step) (suc k, hn, same', step') = (
    suc j + suc k,
    omega arith,
    λ z. absurd (omega arith),
    λ p. omega (arith, step (omega arith), step' (omega arith)),
  )

  -- With fewer than 2⁶⁴ writes between them, equal versions mean equal cells.
  pub CellLater-same :
      (n : ℕ) (c d : Cell V) → n < version_mod → CellLater n c d → d.ver ≡ c.ver → d ≡ c
  CellLater-same n c d small (zero, h, same, step) e = same refl
  CellLater-same n c d small (suc k, h, same, step) e = absurd (omega (arith, step (omega arith)))

  abbrev pub Later : ℕ → Heap V → Heap V → Type ℓ
  Later n h h' = (id : ℕ) → CellLater n (h id) (h' id)

  pub Later-refl : (n : ℕ) (h : Heap V) → Later n h h
  Later-refl n h id = CellLater-refl n (h id)

  pub Later-trans : (m n : ℕ) (a b c : Heap V) → Later m a b → Later n b c → Later (m + n) a c
  Later-trans m n a b c p q id = CellLater-trans m n (a id) (b id) (c id) (p id) (q id)

  Later-write_cell : (h : Heap V) (id : ℕ) (v : V) → Later 1 h (write_cell h id v)
  unfolding write_cell
  Later-write_cell h id v j = elim (Bool-cases (id == j)) [
    | inl e ↦
        let same : id ≡ j = ground arith in
        rw e (1, omega arith, λ z. absurd (omega arith), λ p. rw same refl)
    | inr e ↦ rw e (CellLater-refl 1 (h j))
  ]

  Later-write_all : (h : Heap V) (ws : List (Write V)) → Later (length ws) h (write_all h ws)
  unfolding write_all
  Later-write_all h [] j = CellLater-refl 0 (h j)
  Later-write_all h ((id, v) ∷ ws) j =
      let p =
        Later-trans 1 (length ws) h (write_cell h id v) (write_all (write_cell h id v) ws)
          (Later-write_cell h id v) (Later-write_all (write_cell h id v) ws) j in
      (p.0, omega (arith, p.1), p.2, p.3)

  -- A turn of the other threads uses up as many of their pending writes as it makes.
  pub turn-Later :
      (w : World V) → (n : ℕ) × (n + pending (turn w) ≡ pending w) × Later n w.heap (turn w).heap
  unfolding turn pending
  turn-Later w = by_batches w.heap w.others
    where
      by_batches :
          (h : Heap V) (others : List (List (Write V)))
          → (n : ℕ) × (n + pending_in (turn_with h others).others ≡ pending_in others)
            × Later n h (turn_with h others).heap
      by_batches h [] = (0, omega arith, Later-refl 0 h)
      by_batches h (batch ∷ rest) = (length batch, refl, Later-write_all h batch)

  pub turns-Later :
      (k : ℕ) (w : World V)
      → (n : ℕ) × (n + pending (turns k w) ≡ pending w) × Later n w.heap (turns k w).heap
  turns-Later zero w = (0, omega arith, Later-refl 0 w.heap)
  turns-Later (suc k) w =
      let (n, e, l) = turn-Later w in
      let (n', e', l') = turns-Later k (turn w) in
      (n + n', omega arith, Later-trans n n' _ _ _ l l')

  pub turns-add : (j k : ℕ) (w : World V) → turns k (turns j w) ≡ turns (j + k) w
  turns-add zero k w = let e : 0 + k ≡ k = omega arith in rw e
  turns-add (suc j) k w =
      let e : suc j + k ≡ suc (j + k) = omega arith in rw e (turns-add j k (turn w))
