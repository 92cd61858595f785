-- ===== src/Fsm/Interpreter.antt =====
-- The effectful runner: crates/id_effect_fsm/src/interpreter.rs. `run_blocking` of a transition
-- effect, on a clone of the environment, changes a world `W`; what it does is not code of this
-- file.
use effect_rs.Prelude.{Option, none, some, List, [], ◌∷◌, Result, ok, err, if◌then◌else◌}
use effect_rs.Fsm.Machine.{Key, StateMachine, FsmError, same_key, step}

abbrev pub TransitionEffect : Type 0 → Type 0 → Type 0 → Type 0
TransitionEffect W A Err = W → Result A Err × W

pub record Interpreter (S E W A Err : Type 0) : Type 0 where
  pub actions : List (S × E × TransitionEffect W A Err)

pub data RunError (S E Err : Type 0) : Type 0 where
  transition : FsmError S E → RunError S E Err
  effect : Err → RunError S E Err

module _ {S E W A Err : Type 0} where
  abbrev pub new : Interpreter S E W A Err
  new = record { actions = [] }

module _ {S E W Err : Type 0} where
  abbrev pub lift_step :
      Result S (FsmError S E) × StateMachine S E
      → W
      → Result S (RunError S E Err) × StateMachine S E × W
  lift_step (ok s, machine) w = (ok s, machine, w)
  lift_step (err e, machine) w = (err (transition e), machine, w)

module _ {S E W A Err : Type 0} (k : Key S E) where
  unfoldable pub insert_action :
      S
      → E
      → TransitionEffect W A Err
      → List (S × E × TransitionEffect W A Err)
      → List (S × E × TransitionEffect W A Err)
  insert_action from event make [] = (from, event, make) ∷ []
  insert_action from event make ((s, e, m) ∷ rest) =
      if same_key k s e from event
      then (from, event, make) ∷ rest
      else (s, e, m) ∷ insert_action from event make rest

  unfoldable pub find_action :
      S → E → List (S × E × TransitionEffect W A Err) → Option (TransitionEffect W A Err)
  find_action from event [] = none
  find_action from event ((s, e, m) ∷ rest) =
      if same_key k s e from event then some m else find_action from event rest

  unfoldable pub on_transition :
      Interpreter S E W A Err → S → E → TransitionEffect W A Err → Interpreter S E W A Err
  unfolding insert_action
  on_transition i from event make = record { actions = insert_action from event make i.actions }

  abbrev pub after_action :
      StateMachine S E → E → Result A Err × W → Result S (RunError S E Err) × StateMachine S E × W
  after_action machine event (ok a, w) = lift_step (step k machine event) w
  after_action machine event (err e, w) = (err (effect e), machine, w)

  abbrev pub act :
      StateMachine S E
      → E
      → Option (TransitionEffect W A Err)
      → W
      → Result S (RunError S E Err) × StateMachine S E × W
  act machine event none w = lift_step (step k machine event) w
  act machine event (some make) w = after_action machine event (make w)

  -- `Interpreter::step`: the registered effect runs before the machine steps.
  unfoldable pub step_with :
      Interpreter S E W A Err
      → StateMachine S E
      → E
      → W
      → Result S (RunError S E Err) × StateMachine S E × W
  unfolding find_action
  step_with i machine event w = act machine event (find_action machine.current event i.actions) w

  -- `Interpreter::run`.
  unfoldable pub run :
      Interpreter S E W A Err
      → StateMachine S E
      → List E
      → W
      → Result S (RunError S E Err) × StateMachine S E × W
  run i machine [] w = (ok machine.current, machine, w)
  run i machine (event ∷ events) w =
      let (r, machine', w') = step_with i machine event w in
      elim r [ ok s ↦ run i machine' events w' | err e ↦ (err e, machine', w') ]
