-- ===== src/Tests/Journals.antt =====
-- A door whose moves are journalled, in a journal whose text is the snapshot itself.
use effect_rs.Prelude.{ℕ, suc, ◌≡◌, refl, sym, false, Bool, [], ◌∷◌, ok, arith, Result}
use native.Mathlib.Decide.{ℕ_discrete}
use effect_rs.Fsm.Durable.{FsmSnapshot, register_fsm, restore_state}
use effect_rs.Fsm.Restores.{step_all, step_each, restore-follows_steps}
use effect_rs.Workflow.Journal
use effect_rs.Workflow.Journal.{
  WorkflowError, StepJournal, Codec, NetworkJournalStub, stub_journal, run_step_typed,
  register_workflow, has_workflow, completed_json, completed_step_count, store_step, set_at,
  find_seq, insert_seq,
}
use effect_rs.Workflow.Contract.{JournalLaws}
use effect_rs.Workflow.Replay.{run_step_once}
use effect_rs.Workflow.Stub.{Lossless, stub_keeps_contract, new-IsValid}
use effect_rs.Tests.Machines.{Door, shut, ajar, push, door_key, door}

abbrev mirror : Codec (FsmSnapshot Door) (FsmSnapshot Door) ℕ
mirror = record { to_string = ok; from_str = ok }

mirror-Lossless : Lossless mirror
mirror-Lossless v = (v, refl, refl)

abbrev no_blank : ℕ → Bool
no_blank id = false

abbrev memory :
    StepJournal (NetworkJournalStub ℕ (FsmSnapshot Door)) ℕ (FsmSnapshot Door) (FsmSnapshot Door) ℕ
memory = stub_journal ℕ_discrete no_blank mirror

abbrev memory_laws : JournalLaws memory mirror.from_str
memory_laws = stub_keeps_contract ℕ_discrete no_blank mirror mirror-Lossless

abbrev started : NetworkJournalStub ℕ (FsmSnapshot Door)
started = (register_fsm memory Journal.new 7 door).1

registered :
    register_fsm memory Journal.new 7 door ≡ (ok (record { state = shut; seq = 0 }), started)
unfolding register_fsm register_workflow run_step_typed has_workflow completed_json store_step
    set_at find_seq insert_seq ℕ_discrete
registered = refl

restore-follows_steps_example :
    ((restore_state memory mirror.from_str
        (step_all door_key memory started 7 door (push ∷ push ∷ [])).0
        7
        door).1
      ≡ record door { current = (step_each door_key door (push ∷ push ∷ [])).current })
    × ((step_all door_key memory started 7 door (push ∷ push ∷ [])).1
        ≡ step_each door_key door (push ∷ push ∷ []))
restore-follows_steps_example =
    restore-follows_steps door_key memory mirror.from_str memory_laws Journal.new 7 door door
      (record { state = shut; seq = 0 }) started (push ∷ push ∷ [])
      (new-IsValid ℕ_discrete no_blank mirror mirror-Lossless) registered (omega arith)

abbrev empty_log : NetworkJournalStub ℕ (FsmSnapshot Door)
empty_log = (memory.register_workflow Journal.new 7).1

first_registered : memory.register_workflow Journal.new 7 ≡ (ok tt, empty_log)
unfolding register_workflow
first_registered = refl

-- The world counts the runs of `compute`.
abbrev arrive : ℕ → Result (FsmSnapshot Door) (WorkflowError ℕ ℕ) × ℕ
arrive w = (ok (record { state = ajar; seq = 0 }), suc w)

abbrev leave : ℕ → Result (FsmSnapshot Door) (WorkflowError ℕ ℕ) × ℕ
leave w = (ok (record { state = shut; seq = 9 }), suc w)

abbrev arrived : NetworkJournalStub ℕ (FsmSnapshot Door)
arrived = store_step ℕ_discrete empty_log 7 0 (record { state = ajar; seq = 0 })

arrive_runs :
    run_step_typed ℕ_discrete mirror empty_log 7 0 arrive 5
    ≡ (ok (record { state = ajar; seq = 0 }), arrived, 6)
unfolding register_workflow run_step_typed has_workflow completed_json store_step set_at find_seq
    ℕ_discrete
arrive_runs = refl

run_step_once_example :
    run_step_typed ℕ_discrete mirror arrived 7 0 leave 6
    ≡ (ok (record { state = ajar; seq = 0 }), arrived, 6)
run_step_once_example =
    run_step_once ℕ_discrete mirror (λ v json e. sym e) empty_log 7 0 arrive leave 5 6 6
      (record { state = ajar; seq = 0 }) arrived arrive_runs
