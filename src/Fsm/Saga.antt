-- ===== src/Fsm/Saga.antt =====
-- Sagas: crates/id_effect_fsm/src/saga.rs. `run_blocking` of a step's effect, on a clone of the
-- environment, changes a world `W`. `none` is a panic, of an index out of range.
use Prim.Native.String.{String}
use mathlib.Core.List.{reverse}
use effect_rs.Prelude.{ℕ, suc, Option, none, some, List, [], ◌∷◌, ◌++◌, Result, ok, err, get_elem?}

pub data SagaError (Err : Type 0) : Type 0 where
  forward_failed : Err → SagaError Err
  compensate_failed : Err → SagaError Err

pub record SagaStep (W A C Err : Type 0) : Type 0 where
  pub name : String
  pub forward : W → Result A Err × W
  pub compensate : Option (W → Result C Err × W)

abbrev pub SagaOutcome : Type 0 → Type 0 → Type 0
SagaOutcome W Err = Option (Result Unit (SagaError Err)) × W

module _ {W Err : Type 0} where
  -- What follows a forward failure: `compensate_indices(..)?`, then the error.
  abbrev pub forward_error : Err → SagaOutcome W Err → SagaOutcome W Err
  forward_error e (none, w) = (none, w)
  forward_error e (some (ok t), w) = (some (err (forward_failed e)), w)
  forward_error e (some (err x), w) = (some (err x), w)

module _ {W A C Err : Type 0} where
  abbrev pub add_step : List (SagaStep W A C Err) → SagaStep W A C Err → List (SagaStep W A C Err)
  add_step steps step = steps ++ step ∷ []

  -- The loop of `compensate_indices`, over the indices in the order in which it takes them.
  unfoldable pub compensate_each : List (SagaStep W A C Err) → List ℕ → W → SagaOutcome W Err
  compensate_each steps [] w = (some (ok tt), w)
  compensate_each steps (idx ∷ rest) w = elim (get_elem? steps idx) [
    | none ↦ (none, w)
    | some step ↦ elim step.compensate [
      | none ↦ compensate_each steps rest w
      | some comp ↦
          let (r, w') = comp w in
          elim r [
            | ok c ↦ compensate_each steps rest w'
            | err e ↦ (some (err (compensate_failed e)), w')
          ]
    ]
  ]

  unfoldable pub compensate_indices : List (SagaStep W A C Err) → List ℕ → W → SagaOutcome W Err
  unfolding compensate_each
  compensate_indices steps indices w = compensate_each steps (reverse indices) w

  -- The loop of `run`, from step number `idx` on; `rest` are the steps from there.
  unfoldable pub run_from :
      List (SagaStep W A C Err) → ℕ → List ℕ → List (SagaStep W A C Err) → W → SagaOutcome W Err
  unfolding compensate_indices
  run_from steps idx completed [] w = (some (ok tt), w)
  run_from steps idx completed (step ∷ rest) w =
      let (r, w') = step.forward w in
      elim r [
        | ok a ↦ run_from steps (suc idx) (completed ++ idx ∷ []) rest w'
        | err e ↦ forward_error e (compensate_indices steps completed w')
      ]

  unfoldable pub run : List (SagaStep W A C Err) → W → SagaOutcome W Err
  unfolding run_from
  run steps w = run_from steps 0 [] steps w
