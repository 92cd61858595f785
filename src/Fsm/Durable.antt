-- ===== src/Fsm/Durable.antt =====
-- Durable stepping: crates/id_effect_fsm/src/workflow.rs. The code is generic in the journal, and so
-- is the model: the journal's operations are a parameter. The name of a step is not modelled.
use effect_rs.Prelude.{
  ℕ, ◌-◌, true, false, Option, none, some, Result, ok, err, ◌==◌, if◌then◌else◌,
}
use effect_rs.Fsm.Machine.{FsmError, StateMachine, Key, no_transition, next, set_state}
use effect_rs.Workflow.Journal.{
  WorkflowError, StepJournal, unknown_workflow, invalid_workflow_id, json_failed,
}

pub record FsmSnapshot (S : Type 0) : Type 0 where
  pub state : S
  pub seq : ℕ  -- u32

pub data WorkflowFsmError (S E WorkflowId JsonError : Type 0) : Type 0 where
  workflow_failed : WorkflowError WorkflowId JsonError → WorkflowFsmError S E WorkflowId JsonError
  transition_failed : FsmError S E → WorkflowFsmError S E WorkflowId JsonError

abbrev pub Durable : Type 0 → Type 0 → Type 0 → Type 0 → Type 0
Durable S E WorkflowId JsonError =
    Result (FsmSnapshot S) (WorkflowFsmError S E WorkflowId JsonError)

module _ {S E J WorkflowId Json JsonError : Type 0}
    (ops : StepJournal J WorkflowId (FsmSnapshot S) Json JsonError) where
  -- What follows the registration.
  abbrev pub init_fsm : WorkflowId → FsmSnapshot S → J → Durable S E WorkflowId JsonError × J
  init_fsm id snapshot log =
      let (r, log') = ops.run_step_typed log id 0 (ok snapshot) in
      elim r [ ok v ↦ (ok snapshot, log') | err e ↦ (err (workflow_failed e), log') ]

  unfoldable pub register_fsm :
      J → WorkflowId → StateMachine S E → Durable S E WorkflowId JsonError × J
  register_fsm log id machine =
      let (r, log') = ops.register_workflow log id in
      elim r [
        | ok t ↦ init_fsm id (record { state = machine.current; seq = 0 }) log'
        | err e ↦ (err (workflow_failed e), log')
      ]

module _ {S E J WorkflowId Json JsonError : Type 0} (k : Key S E)
    (ops : StepJournal J WorkflowId (FsmSnapshot S) Json JsonError) where
  -- The journal's step, and the machine after it.
  abbrev pub persist :
      J
      → WorkflowId
      → StateMachine S E
      → ℕ
      → S
      → Durable S E WorkflowId JsonError × J × StateMachine S E
  persist log id machine next_seq pending_state =
      let (r, log') =
        ops.run_step_typed log id next_seq
          (ok (record { state = pending_state; seq = next_seq })) in
      elim r [
        | ok snapshot ↦ (ok snapshot, log', set_state machine snapshot.state)
        | err e ↦ (err (workflow_failed e), log', machine)
      ]

  unfoldable pub step_durable :
      J
      → WorkflowId
      → StateMachine S E
      → E
      → Durable S E WorkflowId JsonError × J × StateMachine S E
  step_durable log id machine event = elim (ops.has_workflow log id) [
    | err e ↦ (err (workflow_failed e), log, machine)
    | ok false ↦ (err (workflow_failed (unknown_workflow id)), log, machine)
    | ok true ↦ elim (ops.completed_step_count log id) [
      | err e ↦ (err (workflow_failed e), log, machine)
      | ok next_seq ↦ elim (next k machine.table machine.current event) [
        | none ↦ (err (transition_failed (no_transition machine.current event)), log, machine)
        | some pending_state ↦ persist log id machine next_seq pending_state
      ]
    ]
  ]

module _ {S E J WorkflowId Json JsonError : Type 0}
    (ops : StepJournal J WorkflowId (FsmSnapshot S) Json JsonError)
    (from_str : Json → Result (FsmSnapshot S) JsonError) where
  -- What follows the read of the latest entry.
  abbrev pub load :
      StateMachine S E → Option Json → Durable S E WorkflowId JsonError × StateMachine S E
  load machine none = (err (workflow_failed invalid_workflow_id), machine)
  load machine (some json) = elim (from_str json) [
    | ok snap ↦ (ok snap, set_state machine snap.state)
    | err e ↦ (err (workflow_failed (json_failed e)), machine)
  ]

  unfoldable pub restore_state :
      J → WorkflowId → StateMachine S E → Durable S E WorkflowId JsonError × StateMachine S E
  restore_state log id machine = elim (ops.completed_step_count log id) [
    | err e ↦ (err (workflow_failed e), machine)
    | ok count ↦
        if count == 0
        then (err (workflow_failed (unknown_workflow id)), machine)
        else (elim (ops.completed_json log id (count - 1)) [
          | err e ↦ (err (workflow_failed e), machine)
          | ok found ↦ load machine found
        ])
  ]
