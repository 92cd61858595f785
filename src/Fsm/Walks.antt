-- ===== src/Fsm/Walks.antt =====
-- Runs of the interpreter against walks in the transition graph.
use effect_rs.Prelude.{
  ◌≡◌, refl, sym, ap, ◌∙◌, none, some, List, [], ◌∷◌, ◌++◌, Result, ok, err, arith, ◌⊎◌, inl, inr,
  Result-cases, Option-cases, Run-cases,
}
use mathlib.Core.Path.{subst}
use effect_rs.Fsm.Machine.{Key, StateMachine, TransitionTable, FsmError, no_transition, next, step}
use effect_rs.Fsm.Interpreter.{
  Interpreter, TransitionEffect, RunError, transition, effect, find_action, step_with, run,
}

-- The events lead from one state to another along edges of the table.
pub data Walk {S E : Type 0} (k : Key S E) (table : TransitionTable S E)
    : S → List E → S → Type 0 where
  stop : (s : S) → Walk k table s [] s
  go :
      {s t u : S} {event : E} {events : List E}
      → next k table s event ≡ some t
      → Walk k table t events u
      → Walk k table s (event ∷ events) u

module _ {S E W A Err : Type 0} (k : Key S E) (i : Interpreter S E W A Err) where
  step_ok :
      (machine : StateMachine S E) (event : E) (w : W) (t : S)
      → (step_with k i machine event w).0 ≡ ok t
      → (next k machine.table machine.current event ≡ some t)
        × (step_with k i machine event w
            ≡ (ok t, record machine { current = t }, (step_with k i machine event w).2))
  unfolding step_with step
  step_ok machine event w t h = ground arith

  step_failed :
      (machine : StateMachine S E) (event : E) (w : W) (x : RunError S E Err)
      → (step_with k i machine event w).0 ≡ err x
      → (step_with k i machine event w ≡ (err x, machine, (step_with k i machine event w).2))
        × (((x ≡ transition (no_transition machine.current event))
              × (next k machine.table machine.current event ≡ none))
            ⊎ ((e : Err) × (x ≡ effect e)))
  unfolding step_with step
  step_failed machine event w x h =
      elim (Option-cases (find_action k machine.current event i.actions)) [
        | inl none_ ↦ elim (Option-cases (next k machine.table machine.current event)) [
          | inl missing ↦ (ground arith, inl (ground arith, missing))
          | inr (t, edge) ↦ absurd (ground arith)
        ]
        | inr (make, found) ↦ elim (Run-cases (make w)) [
          | inl (a, w1, ran) ↦ elim (Option-cases (next k machine.table machine.current event)) [
            | inl missing ↦ (ground arith, inl (ground arith, missing))
            | inr (t, edge) ↦ absurd (ground arith)
          ]
          | inr (e, w1, ran) ↦ (ground arith, inr (e, ground arith))
        ]
      ]

  run-ok :
      (machine machine' : StateMachine S E) (event : E) (events : List E) (w w' : W) (t : S)
      → step_with k i machine event w ≡ (ok t, machine', w')
      → run k i machine (event ∷ events) w ≡ run k i machine' events w'
  unfolding run
  run-ok machine machine' event events w w' t e = ground arith

  run-err :
      (machine machine' : StateMachine S E) (event : E) (events : List E) (w w' : W)
      (x : RunError S E Err)
      → step_with k i machine event w ≡ (err x, machine', w')
      → run k i machine (event ∷ events) w ≡ (err x, machine', w')
  unfolding run
  run-err machine machine' event events w w' x e = ground arith

  -- A run that succeeds has followed the edges: its events lead from the machine's state to the
  -- state that it returns, which is the machine's state afterwards; table and initial state are as
  -- before.
  pub run_follows-Walk :
      (machine : StateMachine S E) (events : List E) (w : W) (s : S)
      → (run k i machine events w).0 ≡ ok s
      → Walk k machine.table machine.current events s
        × ((run k i machine events w).1 ≡ record machine { current = s })
  unfolding run
  run_follows-Walk machine [] w s h =
      let e : machine.current ≡ s = cc h in
      (subst (Walk k machine.table machine.current []) e (stop machine.current), rw (← e) refl)
  run_follows-Walk machine (event ∷ events) w s h =
      let w1 = (step_with k i machine event w).2 in
      elim (Result-cases (step_with k i machine event w).0) [
        | inl (t, e) ↦
            let (edge, moved) = step_ok machine event w t e in
            let first = run-ok machine (record machine { current = t }) event events w w1 t moved in
            let (walk, ends) =
              run_follows-Walk (record machine { current = t }) events w1 s
                (sym (ap (λ (x : Result S (RunError S E Err) × StateMachine S E × W). x.0) first)
                  ∙ h) in
            (
              go edge walk,
              ap (λ (x : Result S (RunError S E Err) × StateMachine S E × W). x.1) first ∙ ends,
            )
        | inr (x, e) ↦
            let (stays, why) = step_failed machine event w x e in
            cc (run-err machine machine event events w w1 x stays)
      ]

module _ {S E W A Err : Type 0} (k : Key S E) (i : Interpreter S E W A Err) where
  -- Where and why a run has stopped: after some of the events, at the state to which these lead,
  -- on an event that has no edge there or whose effect failed.
  abbrev pub StoppedAt : StateMachine S E → List E → RunError S E Err → StateMachine S E → Type 0
  StoppedAt machine events x machine' =
      (before : List E) × (event : E) × (after : List E) × (s : S) × (events
        ≡ before ++ event ∷ after)
      × Walk k machine.table machine.current before s
      × (machine' ≡ record machine { current = s })
      × (((x ≡ transition (no_transition s event)) × (next k machine.table s event ≡ none))
          ⊎ ((e : Err) × (x ≡ effect e)))

  -- A run that fails has followed the edges up to the event that failed, and left the machine in
  -- the state before that event; the failure is a missing edge or the effect's own error.
  pub run_stops_at_error :
      (machine : StateMachine S E) (events : List E) (w : W) (x : RunError S E Err)
      → (run k i machine events w).0 ≡ err x
      → StoppedAt machine events x (run k i machine events w).1
  unfolding run
  run_stops_at_error machine [] w x h = absurd (cc h)
  run_stops_at_error machine (event ∷ events) w x h =
      let w1 = (step_with k i machine event w).2 in
      elim (Result-cases (step_with k i machine event w).0) [
        | inl (t, e) ↦
            let (edge, moved) = step_ok k i machine event w t e in
            let first =
              run-ok k i machine (record machine { current = t }) event events w w1 t moved in
            let (before, ev, after, s, split, walk, ends, why) =
              run_stops_at_error (record machine { current = t }) events w1 x
                (sym (ap (λ (y : Result S (RunError S E Err) × StateMachine S E × W). y.0) first)
                  ∙ h) in
            (
              event ∷ before,
              ev,
              after,
              s,
              ap (λ (es : List E). event ∷ es) split,
              go edge walk,
              ap (λ (y : Result S (RunError S E Err) × StateMachine S E × W). y.1) first ∙ ends,
              why,
            )
        | inr (y, e) ↦
            let (stays, why) = step_failed k i machine event w y e in
            let first = run-err k i machine machine event events w w1 y stays in
            let same : y ≡ x = cc first in
            (
              [],
              event,
              events,
              machine.current,
              refl,
              stop machine.current,
              ap (λ (z : Result S (RunError S E Err) × StateMachine S E × W). z.1) first,
              subst
                  (λ (z : RunError S E Err).
                    ((z ≡ transition (no_transition machine.current event))
                      × (next k machine.table machine.current event ≡ none))
                    ⊎ ((e : Err) × (z ≡ effect e)))
                  same why,
            )
      ]

  -- A run that fails for a missing edge has followed the edges up to an event that has no edge in
  -- the state then reached: the error names that state and that event, and the machine is left in
  -- that state.
  pub run_without_edge :
      (machine : StateMachine S E) (events : List E) (w : W) (t : FsmError S E)
      → (run k i machine events w).0 ≡ err (transition t)
      → (before : List E) × (event : E) × (after : List E) × (s : S) × (events
          ≡ before ++ event ∷ after)
        × Walk k machine.table machine.current before s
        × ((run k i machine events w).1 ≡ record machine { current = s })
        × (t ≡ no_transition s event)
        × (next k machine.table s event ≡ none)
  run_without_edge machine events w t h =
      let (before, event, after, s, split, walk, ends, why) =
        run_stops_at_error machine events w (transition t) h in
      elim why [
        | inl (e, missing) ↦ (before, event, after, s, split, walk, ends, cc e, missing)
        | inr (x, e) ↦ absurd (cc e)
      ]

-- A registered effect runs although the machine has no edge for the event: the step fails, the
-- machine stays where it was, and the world is the one that the effect left.
pub effect_without_edge :
    {S E W A Err : Type 0} (k : Key S E) (i : Interpreter S E W A Err) (machine : StateMachine S E)
    (event : E) (make : TransitionEffect W A Err) (w w' : W) (a : A)
    → find_action k machine.current event i.actions ≡ some make
    → make w ≡ (ok a, w')
    → next k machine.table machine.current event ≡ none
    → step_with k i machine event w
      ≡ (err (transition (no_transition machine.current event)), machine, w')
unfolding step_with step
effect_without_edge k i machine event make w w' a found ran missing = rw (found, ran, missing)
