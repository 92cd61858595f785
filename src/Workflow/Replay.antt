-- ===== src/Workflow/Replay.antt =====
-- Steps of the in-memory journal that run again.
use effect_rs.Prelude.{
  ℕ, ◌≡◌, true, some, arith, Result, ok, inl, inr, Bool-cases, Option-cases, Result-cases,
  Run-cases,
}
use effect_rs.Workflow.Journal.{
  WorkflowError, Codec, NetworkJournalStub, run_step_typed, store_step, set_at, find_seq,
  insert_seq, has_workflow, completed_json, decode,
}
use effect_rs.Workflow.Entries.{find-insert_same}

module _ {WorkflowId : Type 0} (same_id : Discrete WorkflowId) where
  pub set_at_same :
      {A : Type 0} (m : WorkflowId → A) (id : WorkflowId) (v : A) → set_at same_id m id v id ≡ v
  unfolding set_at
  set_at_same m id v = ground arith

module _ {WorkflowId Json : Type 0} (same_id : Discrete WorkflowId) where
  store-find :
      (j : NetworkJournalStub WorkflowId Json) (id : WorkflowId) (seq : ℕ) (json : Json)
      → find_seq seq ((store_step same_id j id seq json).inner id) ≡ some json
  unfolding store_step
  store-find j id seq json = rw (
    set_at_same same_id j.inner id (insert_seq seq json (j.inner id)),
    find-insert_same seq json (j.inner id),
  )

module _ {WorkflowId T Json JsonError W : Type 0} (same_id : Discrete WorkflowId)
    (codec : Codec T Json JsonError)
    (decodes : (v : T) (json : Json)
      → codec.to_string v ≡ ok json
      → codec.from_str json ≡ ok v) where
  run_step-stored :
      (j : NetworkJournalStub WorkflowId Json) (id : WorkflowId) (seq : ℕ)
      (compute : W → Result T (WorkflowError WorkflowId JsonError) × W) (w : W) (v : T)
      (json : Json)
      → j.registered id ≡ true
      → find_seq seq (j.inner id) ≡ some json
      → codec.from_str json ≡ ok v
      → run_step_typed same_id codec j id seq compute w ≡ (ok v, j, w)
  unfolding run_step_typed has_workflow completed_json
  run_step-stored j id seq compute w v json r f q = rw (r, r, f, decode, q)

  -- A step of a workflow runs once: when a run of the step has given a value, a later run gives the
  -- same value and changes neither the journal nor the world, whatever it would compute, provided
  -- that decoding undoes encoding.
  pub run_step_once :
      (j : NetworkJournalStub WorkflowId Json) (id : WorkflowId) (seq : ℕ)
      (compute compute' : W → Result T (WorkflowError WorkflowId JsonError) × W) (w w1 w2 : W)
      (v : T) (j' : NetworkJournalStub WorkflowId Json)
      → run_step_typed same_id codec j id seq compute w ≡ (ok v, j', w1)
      → run_step_typed same_id codec j' id seq compute' w2 ≡ (ok v, j', w2)
  unfolding run_step_typed has_workflow completed_json store_step
  run_step_once j id seq compute compute' w w1 w2 v j' h = elim (Bool-cases (j.registered id)) [
    | inl e ↦ elim (Option-cases (find_seq seq (j.inner id))) [
      | inl f ↦ elim (Run-cases (compute w)) [
        | inl (a, w3, g) ↦ elim (Result-cases (codec.to_string a)) [
          | inl (json, q) ↦ ground (
            arith,
            run_step-stored (store_step same_id j id seq json) id seq compute' w2 a json e
                (store-find same_id j id seq json) (decodes a json q),
          )
          | inr (x, q) ↦ ground arith
        ]
        | inr (x, w3, g) ↦ ground arith
      ]
      | inr (json, f) ↦ elim (Result-cases (codec.from_str json)) [
        | inl (a, q) ↦ ground (arith, run_step-stored j id seq compute' w2 a json e f q)
        | inr (x, q) ↦ ground arith
      ]
    ]
    | inr e ↦ ground arith
  ]
