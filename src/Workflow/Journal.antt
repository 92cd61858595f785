-- ===== src/Workflow/Journal.antt =====
-- `StepJournal`, and its in-memory implementation `NetworkJournalStub`:
-- crates/id_effect_workflow/src/journal.rs, with the errors of error.rs. A workflow id is a value
-- of a type `WorkflowId` with a comparison; `is_blank` is `id.trim().is_empty()`, and the JSON text with
-- its functions is serde_json's. The step's name is not read by this implementation. A poisoned
-- lock does not occur: no code that may panic runs while a lock is held.
use effect_rs.Prelude.{
  ℕ, ◌%◌, ◌^◌, Bool, true, false, Option, none, some, List, [], ◌∷◌, Result, ok, err, ◌==◌, length,
  ite, if◌then◌else◌,
}

-- The variants that the in-memory journal gives.
pub data WorkflowError (WorkflowId JsonError : Type 0) : Type 0 where
  json_failed : JsonError → WorkflowError WorkflowId JsonError
  invalid_workflow_id : WorkflowError WorkflowId JsonError
  workflow_already_exists : WorkflowId → WorkflowError WorkflowId JsonError
  unknown_workflow : WorkflowId → WorkflowError WorkflowId JsonError

-- The trait, at the type `T` of the steps' results, for steps whose `compute` is pure.
pub record StepJournal (J WorkflowId T Json JsonError : Type 0) : Type 0 where
  pub register_workflow : J → WorkflowId → Result Unit (WorkflowError WorkflowId JsonError) × J
  pub has_workflow : J → WorkflowId → Result Bool (WorkflowError WorkflowId JsonError)
  pub completed_json :
      J → WorkflowId → ℕ → Result (Option Json) (WorkflowError WorkflowId JsonError)
  pub run_step_typed :
      J
      → WorkflowId
      → ℕ
      → Result T (WorkflowError WorkflowId JsonError)
      → Result T (WorkflowError WorkflowId JsonError) × J
  pub completed_step_count : J → WorkflowId → Result ℕ (WorkflowError WorkflowId JsonError)

-- serde_json at `T`.
pub record Codec (T Json JsonError : Type 0) : Type 0 where
  pub to_string : T → Result Json JsonError
  pub from_str : Json → Result T JsonError

-- An id that `inner` does not have is one with no entries.
pub record NetworkJournalStub (WorkflowId Json : Type 0) : Type 0 where
  pub registered : WorkflowId → Bool
  pub inner : WorkflowId → List (ℕ × Json)

module _ {Json : Type 0} where
  unfoldable pub find_seq : ℕ → List (ℕ × Json) → Option Json
  find_seq seq [] = none
  find_seq seq ((s, json) ∷ rest) = if s == seq then some json else find_seq seq rest

  unfoldable pub insert_seq : ℕ → Json → List (ℕ × Json) → List (ℕ × Json)
  insert_seq seq json [] = (seq, json) ∷ []
  insert_seq seq json ((s, x) ∷ rest) =
      if s == seq then (seq, json) ∷ rest else (s, x) ∷ insert_seq seq json rest

module _ {WorkflowId Json : Type 0} where
  abbrev pub new : NetworkJournalStub WorkflowId Json
  new = record { registered = λ id. false; inner = λ id. [] }

module _ {WorkflowId Json JsonError : Type 0} where
  unfoldable pub has_workflow :
      NetworkJournalStub WorkflowId Json
      → WorkflowId
      → Result Bool (WorkflowError WorkflowId JsonError)
  has_workflow j id = ok (j.registered id)

  unfoldable pub completed_json :
      NetworkJournalStub WorkflowId Json
      → WorkflowId
      → ℕ
      → Result (Option Json) (WorkflowError WorkflowId JsonError)
  unfolding find_seq
  completed_json j id seq =
      if j.registered id then ok (find_seq seq (j.inner id)) else err (unknown_workflow id)

  -- `m.len() as u32`.
  unfoldable pub completed_step_count :
      NetworkJournalStub WorkflowId Json
      → WorkflowId
      → Result ℕ (WorkflowError WorkflowId JsonError)
  completed_step_count j id =
      if j.registered id then ok (length (j.inner id) % 2 ^ 32) else err (unknown_workflow id)

module _ {WorkflowId : Type 0} (same_id : Discrete WorkflowId) where
  -- `HashMap::insert`, of a map that is a function of its keys.
  unfoldable pub set_at : {A : Type 0} → (WorkflowId → A) → WorkflowId → A → WorkflowId → A
  set_at m id value j = ite (same_id id j) value (m j)

module _ {WorkflowId Json JsonError : Type 0} (same_id : Discrete WorkflowId) where
  unfoldable pub register_workflow :
      (WorkflowId → Bool)
      → NetworkJournalStub WorkflowId Json
      → WorkflowId
      → Result Unit (WorkflowError WorkflowId JsonError) × NetworkJournalStub WorkflowId Json
  unfolding set_at
  register_workflow is_blank j id =
      if is_blank id
      then (err invalid_workflow_id, j)
      else if j.registered id
      then (err (workflow_already_exists id), j)
      else (ok tt, record j { registered = set_at same_id j.registered id true })

module _ {WorkflowId Json : Type 0} (same_id : Discrete WorkflowId) where
  unfoldable pub store_step :
      NetworkJournalStub WorkflowId Json
      → WorkflowId
      → ℕ
      → Json
      → NetworkJournalStub WorkflowId Json
  unfolding set_at insert_seq
  store_step j id seq json = record j {
    inner = set_at same_id j.inner id (insert_seq seq json (j.inner id));
  }

abbrev pub StepOutcome : Type 0 → Type 0 → Type 0 → Type 0 → Type 0 → Type 0
StepOutcome WorkflowId T Json JsonError W =
    Result T (WorkflowError WorkflowId JsonError) × NetworkJournalStub WorkflowId Json × W

abbrev pub decode :
    {WorkflowId T Json JsonError : Type 0}
    → Codec T Json JsonError
    → Json
    → Result T (WorkflowError WorkflowId JsonError)
decode codec json = elim (codec.from_str json) [ ok v ↦ ok v | err e ↦ err (json_failed e) ]

module _ {WorkflowId T Json JsonError W : Type 0} (same_id : Discrete WorkflowId)
    (codec : Codec T Json JsonError) where
  -- What follows `compute()`: `?`, the encoding, and the entry.
  abbrev pub record_step :
      NetworkJournalStub WorkflowId Json
      → WorkflowId
      → ℕ
      → Result T (WorkflowError WorkflowId JsonError) × W
      → StepOutcome WorkflowId T Json JsonError W
  record_step j id seq (err e, w) = (err e, j, w)
  record_step j id seq (ok value, w) = elim (codec.to_string value) [
    | ok json ↦ (ok value, store_step same_id j id seq json, w)
    | err e ↦ (err (json_failed e), j, w)
  ]

  -- `compute` changes a world `W`.
  unfoldable pub run_step_typed :
      NetworkJournalStub WorkflowId Json
      → WorkflowId
      → ℕ
      → (W → Result T (WorkflowError WorkflowId JsonError) × W)
      → W
      → StepOutcome WorkflowId T Json JsonError W
  unfolding has_workflow completed_json store_step
  run_step_typed j id seq compute w = elim (has_workflow j id) [
    | err e ↦ (err e, j, w)
    | ok false ↦ (err (unknown_workflow id), j, w)
    | ok true ↦ elim (completed_json j id seq) [
      | err e ↦ (err e, j, w)
      | ok (some json) ↦ (decode codec json, j, w)
      | ok none ↦ record_step j id seq (compute w)
    ]
  ]

-- The stub as a journal.
abbrev pub stub_journal :
    {WorkflowId T Json JsonError : Type 0}
    → Discrete WorkflowId
    → (WorkflowId → Bool)
    → Codec T Json JsonError
    → StepJournal (NetworkJournalStub WorkflowId Json) WorkflowId T Json JsonError
stub_journal same_id is_blank codec = record {
  register_workflow = register_workflow same_id is_blank;
  has_workflow = has_workflow;
  completed_json = completed_json;
  run_step_typed = λ j id seq r.
      let (v, j', w) = run_step_typed {W = Unit} same_id codec j id seq (λ w. (r, w)) tt in (v, j');
  completed_step_count = completed_step_count;
}
