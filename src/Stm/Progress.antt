-- ===== src/Stm/Progress.antt =====
-- When `commit` ends.
use effect_rs.Prelude.{
  ℕ, zero, suc, ◌-◌, ◌≤◌, ◌≡◌, ◌≢◌, ap, ◌∙◌, true, false, some, List, [], ◌∷◌, arith, Result,
  length, inl, inr, Bool-cases, Option-cases,
}
use effect_rs.Stm.Heap.{Heap, World, Write, turn, turn_with, quiet}
use effect_rs.Stm.Txn
use effect_rs.Stm.Txn.{Txn}
use effect_rs.Stm.Program.{Stm, retry, succeed, fail_with, retry_now, or_else, flat_map, map, check}
use effect_rs.Stm.Cell.{read_shadow, read_stm, write_stm, update_stm, modify_stm, ensure_validated}
use effect_rs.Stm.Commit.{commit}
use effect_rs.Stm.Serial.{
  Outcome-cases, log_valid, commit-valid, commit-invalid, commit-fail, commit-retry,
}
use effect_rs.Stm.Alone.{alone_result}
use effect_rs.Stm.Built.{
  Built, succeeding, failing, retrying, checking, reading, writing, updating, modifying, mapping,
  binding, choosing, commit_alone,
}

module _ {ℓ} {V : Type ℓ} where
  turned_with-length :
      (h : Heap V) (others : List (List (Write V)))
      → length (turn_with h others).others ≡ length others - 1
  unfolding turn_with
  turned_with-length h [] = omega arith
  turned_with-length h (batch ∷ rest) = omega arith

  turned-length : (w : World V) → length (turn w).others ≡ length w.others - 1
  unfolding turn
  turned-length w = turned_with-length w.heap w.others

  -- A program adds nothing to what the other threads have to do.
  abbrev pub Shrinks : {A E : Type ℓ} → Stm V A E → Type ℓ
  Shrinks p = (w : World V) (t : Txn V) → length (p w t).1.others ≤ length w.others

  Shrinks-read : (E : Type ℓ) (r : ℕ) → Shrinks (read_stm {E = E} r)
  unfolding read_stm read_shadow
  Shrinks-read E r w t = elim (Option-cases (t.shadow r)) [
    | inl e ↦ rw (length, e) (omega (arith, turned-length w))
    | inr (v, e) ↦ rw (length, e) (omega arith)
  ]

  Shrinks-write : (E : Type ℓ) (r : ℕ) (v : V) → Shrinks (write_stm {E = E} r v)
  unfolding write_stm ensure_validated
  Shrinks-write E r v w t = elim (Bool-cases (t.validated r)) [
    | inl e ↦ rw (length, e) (omega arith)
    | inr e ↦ rw (length, e) (omega (arith, turned-length w))
  ]

module _ {ℓ} {V E : Type ℓ} where
  Shrinks-flat_map :
      {A B : Type ℓ} (p : Stm V A E) (f : A → Stm V B E)
      → Shrinks p
      → ((a : A) → Shrinks (f a))
      → Shrinks (flat_map p f)
  unfolding flat_map
  Shrinks-flat_map p f sp sf w t = elim (Outcome-cases (p w t).0) [
    | inl (a, e) ↦ rw (length, e) (omega (arith, sp w t, sf a (p w t).1 (p w t).2))
    | inr (inl (x, e)) ↦ rw (length, e) (sp w t)
    | inr (inr e) ↦ rw (length, e) (sp w t)
  ]

  Shrinks-map : {A B : Type ℓ} (p : Stm V A E) (f : A → B) → Shrinks p → Shrinks (map p f)
  unfolding map
  Shrinks-map p f sp w t = elim (Outcome-cases (p w t).0) [
    | inl (a, e) ↦ rw (length, e) (sp w t)
    | inr (inl (x, e)) ↦ rw (length, e) (sp w t)
    | inr (inr e) ↦ rw (length, e) (sp w t)
  ]

  Shrinks-or_else : {A : Type ℓ} (p q : Stm V A E) → Shrinks p → Shrinks q → Shrinks (or_else p q)
  unfolding or_else
  Shrinks-or_else p q sp sq w t = elim (Outcome-cases (p w t).0) [
    | inl (a, e) ↦ rw (length, e) (sp w t)
    | inr (inl (x, e)) ↦ rw (length, e) (sp w t)
    | inr (inr e) ↦ rw (length, e) (omega (arith, sp w t, sq (p w t).1 (p w t).2))
  ]

  Built-Shrinks : {A : Type ℓ} {p : Stm V A E} → Built A p → Shrinks p
  unfolding succeed fail_with retry_now check update_stm modify_stm
  Built-Shrinks (succeeding a) w t = omega arith
  Built-Shrinks (failing e) w t = omega arith
  Built-Shrinks retrying w t = omega arith
  Built-Shrinks (checking true) w t = omega arith
  Built-Shrinks (checking false) w t = omega arith
  Built-Shrinks (reading r) w t = Shrinks-read E r w t
  Built-Shrinks (writing r v) w t = Shrinks-write E r v w t
  Built-Shrinks (updating r f) w t =
      Shrinks-flat_map (read_stm r) (λ cur. write_stm r (f cur)) (Shrinks-read E r)
        (λ cur. Shrinks-write E r (f cur)) w t
  Built-Shrinks (modifying r f) w t =
      Shrinks-flat_map (read_stm r) (λ cur. map (write_stm r (f cur).1) (λ _. (f cur).0))
        (Shrinks-read E r)
        (λ cur. Shrinks-map (write_stm r (f cur).1) (λ _. (f cur).0) (Shrinks-write E r (f cur).1))
        w t
  Built-Shrinks (mapping {p = p} f b) w t = Shrinks-map p f (Built-Shrinks b) w t
  Built-Shrinks (binding {p = p} {f = f} b k) w t =
      Shrinks-flat_map p f (Built-Shrinks b) (λ a. Built-Shrinks (k a)) w t
  Built-Shrinks (choosing {p = p} {q = q} b c) w t =
      Shrinks-or_else p q (Built-Shrinks b) (Built-Shrinks c) w t

module _ {ℓ} {V A E : Type ℓ} (stm : Stm V A E) (built : Built A stm)
    (unblocked : (h : Heap V) → (stm (quiet h) Txn.new).0 ≢ retry) where
  ends_alone : (h : Heap V) → (x : Result A E × World V) × (commit 1 stm (quiet h) ≡ some x)
  ends_alone h = elim (Outcome-cases (stm (quiet h) Txn.new).0) [
    | inl (a, e) ↦ (_, commit_alone stm 0 h built ∙ ap (alone_result h (stm (quiet h) Txn.new).2) e)
    | inr (inl (x, e)) ↦
        (_, commit_alone stm 0 h built ∙ ap (alone_result h (stm (quiet h) Txn.new).2) e)
    | inr (inr e) ↦ absurd (unblocked h e)
  ]

  ends_within :
      (n : ℕ) (h : Heap V) (others : List (List (Write V)))
      → length others ≤ n
      → (x : Result A E × World V) × (commit (suc n) stm (record { heap = h; others = others })
          ≡ some x)
  ends_within zero h [] small = ends_alone h
  ends_within zero h (batch ∷ rest) small = ground arith
  ends_within (suc n) h others small =
      let w : World V = record { heap = h; others = others } in
      let w1 = (stm w Txn.new).1 in
      let fewer = Built-Shrinks built w Txn.new in
      elim (Outcome-cases (stm w Txn.new).0) [
        | inl (a, e) ↦ elim (Bool-cases (log_valid stm w)) [
          | inl v ↦ (_, commit-valid stm (suc n) w a e v)
          | inr v ↦
              let (x, done_) =
                ends_within n (turn (turn w1)).heap (turn (turn w1)).others
                  (omega (arith, turned-length w1, turned-length (turn w1))) in
              (x, commit-invalid stm (suc n) w a e v ∙ done_)
        ]
        | inr (inl (x, e)) ↦ (_, commit-fail stm (suc n) w x e)
        | inr (inr e) ↦
            let (x, done_) =
              ends_within n (turn w1).heap (turn w1).others (omega (arith, turned-length w1)) in
            (x, commit-retry stm (suc n) w e ∙ done_)
      ]

  -- Progress: a program of the combinators that does not retry when it runs alone, on whatever
  -- heap, is committed or fails, whatever the other threads write: one round more than the
  -- batches of writes that they have still to make is enough fuel.
  pub commit_ends :
      (w : World V) → (x : Result A E × World V) × (commit (suc (length w.others)) stm w ≡ some x)
  commit_ends w = ends_within (length w.others) w.heap w.others (omega arith)
