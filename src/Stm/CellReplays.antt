-- ===== src/Stm/CellReplays.antt =====
-- Reads and writes of cells replay.
use effect_rs.Prelude.{
  ℕ, ◌<◌, ◌≡◌, refl, true, false, ◌&&◌, none, some, List, [], ◌∷◌, ◌++◌, Bool-cases, Option-cases,
  inl, inr, arith, ◌==◌,
}
use effect_rs.Stm.Heap.{Heap, World, version_mod, turn, turn_with, quiet}
use effect_rs.Stm.Later.{Later, CellLater-same, turn-Later}
use effect_rs.Stm.Txn.{Txn, validate}
use effect_rs.Stm.Program.{done, map}
use effect_rs.Stm.Cell.{
  record_read, read_stm, add_validator, record_write, write_stm, update_stm, modify_stm,
}
use effect_rs.Stm.Replays.{Valid, Tracked, Replays, Replays-flat_map, Replays-map}

module _ {ℓ} {V : Type ℓ} where
  validate-append :
      (h : Heap V) (vs us : List (ℕ × ℕ)) → validate h (vs ++ us) ≡ (validate h vs && validate h us)
  unfolding validate
  validate-append h [] us = refl
  validate-append h ((id, ver) ∷ vs) us = ground (arith, validate-append h vs us)

  turn-quiet : (h : Heap V) → turn (quiet h) ≡ quiet h
  unfolding turn turn_with
  turn-quiet h = refl

  -- What a valid log with a validator of the cell says of the live cell.
  cell_unchanged :
      (n : ℕ) (h h' : Heap V) (r : ℕ) (vs : List (ℕ × ℕ))
      → n < version_mod
      → Later n h h'
      → validate h' (vs ++ (r, (h r).ver) ∷ []) ≡ true
      → h' r ≡ h r
  unfolding validate
  cell_unchanged n h h' r vs small later v =
      CellLater-same n (h r) (h' r) small (later r)
        (ground (arith, validate-append h' vs ((r, (h r).ver) ∷ [])))

  validate-prefix :
      (h : Heap V) (vs us : List (ℕ × ℕ)) → validate h (vs ++ us) ≡ true → validate h vs ≡ true
  validate-prefix h vs us v = ground (arith, validate-append h vs us)

  validate-push :
      (h : Heap V) (vs : List (ℕ × ℕ)) (r : ℕ)
      → validate h vs ≡ true
      → validate h (vs ++ (r, (h r).ver) ∷ []) ≡ true
  unfolding validate
  validate-push h vs r v = ground (arith, validate-append h vs ((r, (h r).ver) ∷ []))

  untracked : (t : Txn V) (r : ℕ) → Tracked t → t.shadow r ≡ none → t.validated r ≡ false
  untracked t r z e = elim (Bool-cases (t.validated r)) [
    | inl yes_ ↦ let (v, s) = z r yes_ in cc (e, s)
    | inr no_ ↦ no_
  ]

  Tracked-record_read : (w : World V) (r : ℕ) (t : Txn V) → Tracked t → Tracked (record_read r w t)
  unfolding record_read
  Tracked-record_read w r t z j h = elim (Bool-cases (r == j)) [
    | inl e ↦ ((w.heap r).value, rw e)
    | inr e ↦ let (v, s) = z j (ground arith) in (v, rw e s)
  ]

  Tracked-record_write :
      (r : ℕ) (v : V) (t : Txn V)
      → ((j : ℕ) → (r == j) ≡ false → t.validated j ≡ true → (x : V) × (t.shadow j ≡ some x))
      → Tracked (record_write r v t)
  unfolding record_write
  Tracked-record_write r v t z j h = elim (Bool-cases (r == j)) [
    | inl e ↦ (v, rw e)
    | inr e ↦ let (x, s) = z j e h in (x, rw e s)
  ]

module _ {ℓ} {V : Type ℓ} (r : ℕ) where
  validators-record_read :
      (w : World V) (t : Txn V)
      → t.validated r ≡ false
      → (record_read r w t).read_validators ≡ t.read_validators ++ (r, (w.heap r).ver) ∷ []
  unfolding record_read
  validators-record_read w t e = rw e

  record_read-heap :
      (w : World V) (h : Heap V) (t : Txn V)
      → h r ≡ w.heap r
      → record_read r (quiet h) t ≡ record_read r w t
  unfolding record_read
  record_read-heap w h t e = rw e

  extends-record_read :
      (w : World V) (h : Heap V) (t : Txn V) → Valid h (record_read r w t) → Valid h t
  unfolding record_read
  extends-record_read w h t = elim (Bool-cases (t.validated r)) [
    | inl e ↦ rw e (λ v. v)
    | inr e ↦ rw e (λ v. validate-prefix h t.read_validators ((r, (w.heap r).ver) ∷ []) v)
  ]

module _ {ℓ} {V E : Type ℓ} (r : ℕ) where
  -- The read of a cell that has a shadow value, and of one that has none.
  read-shadowed :
      (w : World V) (t : Txn V) (v : V)
      → t.shadow r ≡ some v
      → read_stm {E = E} r w t ≡ (done v, w, t)
  unfolding read_stm
  read-shadowed w t v e = rw e

  read-live :
      (w : World V) (t : Txn V)
      → t.shadow r ≡ none
      → read_stm {E = E} r w t ≡ (done ((turn w).heap r).value, turn w, record_read r (turn w) t)
  unfolding read_stm
  read-live w t e = rw e

  pub Replays-read_stm : Replays (read_stm {V = V} {E = E} r)
  Replays-read_stm = record {
    settles = λ w t. elim (Option-cases (t.shadow r)) [
      | inl e ↦ rw (read-live w t e) (1, refl)
      | inr (v, e) ↦ rw (read-shadowed w t v e) (0, refl)
    ];
    tracks = λ w t z. elim (Option-cases (t.shadow r)) [
      | inl e ↦ rw (read-live w t e) (Tracked-record_read (turn w) r t z)
      | inr (v, e) ↦ rw (read-shadowed w t v e) z
    ];
    extends = λ w t h. elim (Option-cases (t.shadow r)) [
      | inl e ↦ rw (read-live w t e) (extends-record_read r (turn w) h t)
      | inr (v, e) ↦ rw (read-shadowed w t v e) (λ x. x)
    ];
    replays = λ w t m h z small. elim (Option-cases (t.shadow r)) [
      | inl e ↦
          rw (read-live w t e, read-live (quiet h) t e, turn-quiet h)
            (λ le later v.
              let (n, k, l) = turn-Later w in
              let same : h r ≡ (turn w).heap r =
                cell_unchanged m (turn w).heap h r t.read_validators (omega arith) later
                  (rw (validators-record_read r (turn w) t (untracked t r z e)) at v) in
              rw (record_read-heap r (turn w) h t same, same))
      | inr (v, e) ↦ rw (read-shadowed w t v e, read-shadowed (quiet h) t v e) (λ le later x. refl)
    ];
    alone = λ h t z v. elim (Option-cases (t.shadow r)) [
      | inl e ↦
          rw (read-live (quiet h) t e, turn-quiet h)
            (
              refl,
              rw (validators-record_read r (quiet h) t (untracked t r z e))
                  (validate-push h t.read_validators r v),
            )
      | inr (x, e) ↦ rw (read-shadowed (quiet h) t x e) (refl, v)
    ];
  }

module _ {ℓ} {V : Type ℓ} (r : ℕ) (v : V) where
  Tracked-first_write :
      (w : World V) (t : Txn V) → Tracked t → Tracked (record_write r v (add_validator r w t))
  unfolding add_validator
  Tracked-first_write w t z =
      Tracked-record_write r v (add_validator r w t) (λ j ne h. z j (ground arith))

  first_write-heap :
      (w : World V) (h : Heap V) (t : Txn V)
      → h r ≡ w.heap r
      → record_write r v (add_validator r (quiet h) t) ≡ record_write r v (add_validator r w t)
  unfolding add_validator
  first_write-heap w h t e = rw e

module _ {ℓ} {V E : Type ℓ} (r : ℕ) (v : V) where
  write-again :
      (w : World V) (t : Txn V)
      → t.validated r ≡ true
      → write_stm {E = E} r v w t ≡ (done tt, w, record_write r v t)
  unfolding write_stm
  write-again w t e = rw e

  write-first :
      (w : World V) (t : Txn V)
      → t.validated r ≡ false
      → write_stm {E = E} r v w t ≡ (done tt, turn w, record_write r v (add_validator r (turn w) t))
  unfolding write_stm
  write-first w t e = rw e

  pub Replays-write_stm : Replays (write_stm {E = E} r v)
  unfolding record_write add_validator
  Replays-write_stm = record {
    settles = λ w t. elim (Bool-cases (t.validated r)) [
      | inl e ↦ rw (write-again w t e) (0, refl)
      | inr e ↦ rw (write-first w t e) (1, refl)
    ];
    tracks = λ w t z. elim (Bool-cases (t.validated r)) [
      | inl e ↦ rw (write-again w t e) (Tracked-record_write r v t (λ j ne h. z j h))
      | inr e ↦ rw (write-first w t e) (Tracked-first_write r v (turn w) t z)
    ];
    extends = λ w t h. elim (Bool-cases (t.validated r)) [
      | inl e ↦ rw (write-again w t e) (λ x. x)
      | inr e ↦
          rw (write-first w t e)
            (λ x. validate-prefix h t.read_validators ((r, ((turn w).heap r).ver) ∷ []) x)
    ];
    replays = λ w t m h z small. elim (Bool-cases (t.validated r)) [
      | inl e ↦ rw (write-again w t e, write-again (quiet h) t e) (λ le later x. refl)
      | inr e ↦
          rw (write-first w t e, write-first (quiet h) t e, turn-quiet h)
            (λ le later x.
              let (n, k, l) = turn-Later w in
              let same : h r ≡ (turn w).heap r =
                cell_unchanged m (turn w).heap h r t.read_validators (omega arith) later x in
              rw (first_write-heap r v (turn w) h t same))
    ];
    alone = λ h t z x. elim (Bool-cases (t.validated r)) [
      | inl e ↦ rw (write-again (quiet h) t e) (refl, x)
      | inr e ↦
          rw (write-first (quiet h) t e, turn-quiet h) (refl, validate-push h t.read_validators r x)
    ];
  }

module _ {ℓ} {V E : Type ℓ} (r : ℕ) where
  pub Replays-update_stm : (f : V → V) → Replays (update_stm {E = E} r f)
  unfolding update_stm
  Replays-update_stm f =
      Replays-flat_map (read_stm r) (λ cur. write_stm r (f cur)) (Replays-read_stm r)
        (λ cur. Replays-write_stm r (f cur))

  pub Replays-modify_stm : {B : Type ℓ} (f : V → B × V) → Replays (modify_stm {E = E} r f)
  unfolding modify_stm
  Replays-modify_stm f =
      Replays-flat_map (read_stm r) (λ cur. map (write_stm r (f cur).1) (λ _. (f cur).0))
        (Replays-read_stm r)
        (λ cur.
          Replays-map (write_stm r (f cur).1) (λ _. (f cur).0) (Replays-write_stm r (f cur).1))
