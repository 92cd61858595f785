-- ===== src/Fsm/Rollback.antt =====
-- Sagas against a stack of compensations.
use mathlib.Core.List.{reverse, reverse-append}
use effect_rs.Prelude.{
  ℕ, suc, ◌+◌, ◌≡◌, refl, ap, ◌∙◌, Option, none, some, List, [], ◌∷◌, ◌++◌, Result, ok, err,
  get_elem?, arith, Run-cases, inl, inr,
}
use effect_rs.Fsm.Saga.{
  SagaStep, SagaError, forward_failed, compensate_failed, compensate_each, run_from, run,
}

abbrev pub Compensation : Type 0 → Type 0 → Type 0 → Type 0
Compensation W C Err = Option (W → Result C Err × W)

module _ {W Err : Type 0} where
  abbrev pub after_unwind : Err → Result Unit (SagaError Err) × W → Result Unit (SagaError Err) × W
  after_unwind e (ok t, w) = (err (forward_failed e), w)
  after_unwind e (err x, w) = (err x, w)

module _ {W C Err : Type 0} where
  -- The reference: run the compensations of a stack, the top first; a step without one is passed
  -- over, and the first that fails ends the rollback with its error.
  unfoldable pub unwind : List (Compensation W C Err) → W → Result Unit (SagaError Err) × W
  unwind [] w = (ok tt, w)
  unwind (none ∷ stack) w = unwind stack w
  unwind (some comp ∷ stack) w =
      let (r, w') = comp w in
      elim r [ ok c ↦ unwind stack w' | err e ↦ (err (compensate_failed e), w') ]

module _ {W A C Err : Type 0} where
  -- The reference: run the steps in order, pushing the compensation of each step that succeeds; a
  -- failure unwinds the stack.
  unfoldable pub run_stack :
      List (Compensation W C Err) → List (SagaStep W A C Err) → W → Result Unit (SagaError Err) × W
  unfolding unwind
  run_stack stack [] w = (ok tt, w)
  run_stack stack (step ∷ rest) w =
      let (r, w') = step.forward w in
      elim r [
        | ok a ↦ run_stack (step.compensate ∷ stack) rest w'
        | err e ↦ after_unwind e (unwind stack w')
      ]

module _ {W A C Err : Type 0} (steps : List (SagaStep W A C Err)) where
  -- The indices name the steps whose compensations stand on the stack.
  abbrev Names : List ℕ → List (Compensation W C Err) → Type 0
  Names [] [] = Unit
  Names (idx ∷ rest) (comp ∷ stack) =
      ((step : SagaStep W A C Err) × (get_elem? steps idx ≡ some step) × (step.compensate ≡ comp))
      × Names rest stack
  Names _ _ = ⊥

  compensate_each-unwind :
      (indices : List ℕ) (stack : List (Compensation W C Err)) (w : W)
      → Names indices stack
      → compensate_each steps indices w ≡ (some (unwind stack w).0, (unwind stack w).1)
  unfolding compensate_each unwind
  compensate_each-unwind [] [] w names = refl
  compensate_each-unwind [] (comp ∷ stack) w names = absurd names
  compensate_each-unwind (idx ∷ rest) [] w names = absurd names
  compensate_each-unwind (idx ∷ rest) (none ∷ stack) w ((step, at, same), names) =
      ground (arith, compensate_each-unwind rest stack w names)
  compensate_each-unwind (idx ∷ rest) (some comp ∷ stack) w ((step, at, same), names) =
      elim (Run-cases (comp w)) [
        | inl (c, w1, e) ↦ ground (arith, compensate_each-unwind rest stack w1 names)
        | inr (x, w1, e) ↦ ground arith
      ]

  reverse-snoc :
      (indices : List ℕ) (idx : ℕ) → reverse (indices ++ idx ∷ []) ≡ idx ∷ reverse indices
  reverse-snoc indices idx = reverse-append indices (idx ∷ [])

  run_from-stack :
      (idx : ℕ) (completed : List ℕ) (rest : List (SagaStep W A C Err))
      (stack : List (Compensation W C Err)) (w : W)
      → ((j : ℕ) → get_elem? steps (idx + j) ≡ get_elem? rest j)
      → Names (reverse completed) stack
      → run_from steps idx completed rest w
        ≡ (some (run_stack stack rest w).0, (run_stack stack rest w).1)
  unfolding run_from run_stack
  run_from-stack idx completed [] stack w suffix names = refl
  run_from-stack idx completed (step ∷ rest) stack w suffix names =
      elim (Run-cases (step.forward w)) [
        | inl (a, w1, e) ↦
            let here : get_elem? steps idx ≡ some step =
              ap (get_elem? steps) (omega arith) ∙ suffix 0 in
            let names' : Names (reverse (completed ++ idx ∷ [])) (step.compensate ∷ stack) =
              rw (reverse-snoc completed idx) ((step, here, refl), names) in
            let suffix' : (j : ℕ) → get_elem? steps (suc idx + j) ≡ get_elem? rest j =
              λ j. ap (get_elem? steps) (omega arith) ∙ suffix (suc j) in
            ground (
              arith,
              run_from-stack (suc idx) (completed ++ idx ∷ []) rest (step.compensate ∷ stack) w1
                  suffix' names',
            )
        | inr (x, w1, e) ↦
            let rolled = compensate_each-unwind (reverse completed) stack w1 names in
            elim (Run-cases (unwind stack w1)) [
              | inl (t, w2, u) ↦ ground arith
              | inr (y, w2, u) ↦ ground arith
            ]
      ]

  -- A saga never looks up a step that is not there, and it does what running the steps on a stack
  -- of compensations does: after a forward failure the compensations of exactly the completed
  -- steps run, the last completed step's first; the forward error is returned if they all succeed,
  -- and else the first compensation error, after which no further compensation runs.
  pub run_rolls_back :
      (w : W) → run steps w ≡ (some (run_stack [] steps w).0, (run_stack [] steps w).1)
  unfolding run
  run_rolls_back w = run_from-stack 0 [] steps [] w (λ j. ap (get_elem? steps) (omega arith)) tt
