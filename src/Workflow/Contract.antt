-- ===== src/Workflow/Contract.antt =====
-- What a journal promises its clients: the results of a workflow's steps, in order, kept.
use effect_rs.Prelude.{
  ℕ, ◌%◌, ◌^◌, ◌≡◌, some, true, List, [], ◌∷◌, ◌++◌, Result, ok, length, get_elem?,
}
use effect_rs.Workflow.Journal.{StepJournal}

pub record JournalLaws {J WorkflowId T Json JsonError : Type 0}
    (ops : StepJournal J WorkflowId T Json JsonError) (from_str : Json → Result T JsonError)
    : Type 1 where
  pub IsValid : J → Type 0
  -- The workflow is registered, and these are the results of its steps.
  pub Holds : J → WorkflowId → List T → Type 0
  pub has :
      (log : J) (id : WorkflowId) (vs : List T)
      → Holds log id vs
      → ops.has_workflow log id ≡ ok true
  pub count :
      (log : J) (id : WorkflowId) (vs : List T)
      → Holds log id vs
      → ops.completed_step_count log id ≡ ok (length vs % 2 ^ 32)
  pub read :
      (log : J) (id : WorkflowId) (vs : List T) (i : ℕ) (v : T)
      → Holds log id vs
      → get_elem? vs i ≡ some v
      → (json : Json) × (ops.completed_json log id i ≡ ok (some json)) × (from_str json ≡ ok v)
  pub append :
      (log : J) (id : WorkflowId) (vs : List T) (v : T)
      → Holds log id vs
      → (log' : J) × (ops.run_step_typed log id (length vs) (ok v) ≡ (ok v, log'))
        × Holds log' id (vs ++ v ∷ [])
  pub register :
      (log : J) (id : WorkflowId) (log' : J)
      → IsValid log
      → ops.register_workflow log id ≡ (ok tt, log')
      → Holds log' id []
