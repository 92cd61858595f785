-- ===== src/Fsm/Machine.antt =====
-- Transition tables and machines: crates/id_effect_fsm/src/machine.rs and error.rs.
use effect_rs.Prelude.{
  ℕ, Bool, true, false, Option, none, some, List, [], ◌∷◌, Result, ok, err, length, if◌then◌else◌,
}

pub data FsmError (S E : Type 0) : Type 0 where
  no_transition : S → E → FsmError S E

-- The edges, `(from, event) ↦ to`, in some order.
pub record TransitionTable (S E : Type 0) : Type 0 where
  pub edges : List (S × E × S)

pub record StateMachine (S E : Type 0) : Type 0 where
  pub initial : S
  pub current : S
  pub table : TransitionTable S E

-- `Copy + Eq + Hash`: what the code uses of it is the comparison of two keys.
pub record Key (S E : Type 0) : Type 0 where
  pub same_state : Discrete S
  pub same_event : Discrete E

module _ {S E : Type 0} (k : Key S E) where
  unfoldable pub same_key : S → E → S → E → Bool
  same_key s e s' e' = elim (k.same_state s s') [
    | yes p ↦ elim (k.same_event e e') [ yes q ↦ true | no q ↦ false ]
    | no p ↦ false
  ]

  unfoldable pub insert_edge : S → E → S → List (S × E × S) → List (S × E × S)
  insert_edge from event to [] = (from, event, to) ∷ []
  insert_edge from event to ((s, e, t) ∷ rest) =
      if same_key s e from event
      then (from, event, to) ∷ rest
      else (s, e, t) ∷ insert_edge from event to rest

  unfoldable pub find_edge : S → E → List (S × E × S) → Option S
  find_edge from event [] = none
  find_edge from event ((s, e, t) ∷ rest) =
      if same_key s e from event then some t else find_edge from event rest

  unfoldable pub on : TransitionTable S E → S → E → S → TransitionTable S E
  unfolding insert_edge
  on table from event to = record { edges = insert_edge from event to table.edges }

  unfoldable pub next : TransitionTable S E → S → E → Option S
  unfolding find_edge
  next table from event = find_edge from event table.edges

  abbrev pub step_to : StateMachine S E → E → Option S → Result S (FsmError S E) × StateMachine S E
  step_to machine event (some to) = (ok to, record machine { current = to })
  step_to machine event none = (err (no_transition machine.current event), machine)

  unfoldable pub step : StateMachine S E → E → Result S (FsmError S E) × StateMachine S E
  step machine event = step_to machine event (next machine.table machine.current event)

module _ {S E : Type 0} where
  abbrev pub empty : TransitionTable S E
  empty = record { edges = [] }

  unfoldable pub len : TransitionTable S E → ℕ
  len table = length table.edges

  unfoldable pub new : S → TransitionTable S E → StateMachine S E
  new initial table = record { initial = initial; current = initial; table = table }

  unfoldable pub reset : StateMachine S E → StateMachine S E
  reset machine = record machine { current = machine.initial }

  unfoldable pub set_state : StateMachine S E → S → StateMachine S E
  set_state machine state = record machine { current = state }
