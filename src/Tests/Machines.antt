-- ===== src/Tests/Machines.antt =====
-- A door as a state machine, and a saga of two steps.
use effect_rs.Prelude.{ℕ, suc, ◌+◌, ◌≡◌, refl, none, some, List, [], ◌∷◌, ◌++◌, ok, err}
use effect_rs.Fsm.Machine.{Key, TransitionTable, StateMachine, no_transition, same_key, next, step}
use effect_rs.Fsm.Interpreter.{
  Interpreter, TransitionEffect, transition, find_action, step_with, run,
}
use effect_rs.Fsm.Walks.{Walk, run_follows-Walk, run_without_edge}
use effect_rs.Fsm.Saga
use effect_rs.Fsm.Saga.{SagaStep}
use effect_rs.Fsm.Rollback.{run_stack, run_rolls_back}

pub data Door : Type 0 where
  shut ajar : Door

pub data Act : Type 0 where
  push pull : Act

pub Door-discrete : Discrete Door
Door-discrete = hlevel

pub Act-discrete : Discrete Act
Act-discrete = hlevel

abbrev pub door_key : Key Door Act
door_key = record { same_state = Door-discrete; same_event = Act-discrete }

abbrev pub door_table : TransitionTable Door Act
door_table = record { edges = (shut, push, ajar) ∷ (ajar, pull, shut) ∷ [] }

abbrev pub door : StateMachine Door Act
door = record { initial = shut; current = shut; table = door_table }

-- The world counts the effects that have run.
abbrev counting : TransitionEffect ℕ ℕ ℕ
counting w = (ok w, suc w)

abbrev watcher : Interpreter Door Act ℕ ℕ ℕ
watcher = record { actions = (shut, pull, counting) ∷ [] }

door_runs : (run door_key watcher door (push ∷ pull ∷ []) 0).0 ≡ ok shut
unfolding run step_with step next same_key Door-discrete Act-discrete
door_runs = refl

run_follows-Walk_example :
    Walk door_key door_table shut (push ∷ pull ∷ []) shut
    × ((run door_key watcher door (push ∷ pull ∷ []) 0).1 ≡ record door { current = shut })
run_follows-Walk_example =
    run_follows-Walk door_key watcher door (push ∷ pull ∷ []) 0 shut door_runs

door_jams :
    (run door_key watcher door (push ∷ push ∷ []) 0).0 ≡ err (transition (no_transition ajar push))
unfolding run step_with step next same_key Door-discrete Act-discrete
door_jams = refl

run_without_edge_example :
    (before : List Act) × (event : Act) × (after : List Act) × (s : Door) × (push ∷ push ∷ []
      ≡ before ++ event ∷ after)
    × Walk door_key door_table shut before s
    × ((run door_key watcher door (push ∷ push ∷ []) 0).1 ≡ record door { current = s })
    × (no_transition ajar push ≡ no_transition s event)
    × (next door_key door_table s event ≡ none)
run_without_edge_example =
    run_without_edge door_key watcher door (push ∷ push ∷ []) 0 (no_transition ajar push) door_jams

pull_watched : find_action door_key shut pull watcher.actions ≡ some counting
unfolding find_action same_key Door-discrete Act-discrete
pull_watched = refl

pull_missing : next door_key door_table shut pull ≡ none
unfolding next same_key Door-discrete Act-discrete
pull_missing = refl

-- Each step adds ten and takes one back; the second fails.
abbrev booking : List (SagaStep ℕ ℕ ℕ ℕ)
booking =
    record { name = "hotel"; forward = λ w. (ok w, w + 10); compensate = some (λ w. (ok w, w + 1)) }
    ∷ record { name = "flight"; forward = λ w. (err w, w); compensate = none }
    ∷ []

run_rolls_back_example :
    Saga.run booking 0 ≡ (some (run_stack [] booking 0).0, (run_stack [] booking 0).1)
run_rolls_back_example = run_rolls_back booking 0

booking_undone : (run_stack [] booking 0).1 ≡ 11
unfolding run_stack
booking_undone = refl
