-- ===== src/Workflow/Stub.antt =====
-- The in-memory journal and the contract of a journal.
use effect_rs.Prelude.{
  ℕ, zero, suc, ◌+◌, ◌≡◌, refl, ap, ◌∙◌, Bool, true, false, some, List, [], ◌∷◌, ◌++◌, arith, ok,
  length, get_elem?, inl, inr, Bool-cases,
}
use effect_rs.Workflow.Journal.{
  Codec, NetworkJournalStub, stub_journal, run_step_typed, store_step, set_at, find_seq, insert_seq,
  has_workflow, completed_json, completed_step_count, register_workflow, record_step, new,
}
use effect_rs.Workflow.Entries.{CountsFrom, find_beyond, insert_beyond, append-CountsFrom}
use effect_rs.Workflow.Contract.{JournalLaws}
use effect_rs.Workflow.Replay.{set_at_same}

-- An encoder that does not fail, and a decoder that undoes it.
abbrev pub Lossless : {T Json JsonError : Type 0} → Codec T Json JsonError → Type 0
Lossless {T = T} {Json = Json} codec =
    (v : T) → (json : Json) × (codec.to_string v ≡ ok json) × (codec.from_str json ≡ ok v)

module _ {T Json JsonError : Type 0} (codec : Codec T Json JsonError) where
  abbrev pub Decodes : List (ℕ × Json) → List T → Type 0
  Decodes [] [] = Unit
  Decodes [] (v ∷ vs) = ⊥
  Decodes (e ∷ es) [] = ⊥
  Decodes ((s, json) ∷ es) (v ∷ vs) = (codec.from_str json ≡ ok v) × Decodes es vs

  length-Decodes : (es : List (ℕ × Json)) (vs : List T) → Decodes es vs → length es ≡ length vs
  length-Decodes [] [] d = refl
  length-Decodes [] (v ∷ vs) d = absurd d
  length-Decodes (e ∷ es) [] d = absurd d
  length-Decodes ((s, json) ∷ es) (v ∷ vs) d = ap suc (length-Decodes es vs d.1)

  append-Decodes :
      (es : List (ℕ × Json)) (vs : List T) (seq : ℕ) (json : Json) (v : T)
      → Decodes es vs
      → codec.from_str json ≡ ok v
      → Decodes (es ++ (seq, json) ∷ []) (vs ++ v ∷ [])
  append-Decodes [] [] seq json v d q = (q, tt)
  append-Decodes [] (x ∷ vs) seq json v d q = absurd d
  append-Decodes (e ∷ es) [] seq json v d q = absurd d
  append-Decodes ((s, x) ∷ es) (y ∷ vs) seq json v d q =
      (d.0, append-Decodes es vs seq json v d.1 q)

  find-Decodes :
      (k i : ℕ) (es : List (ℕ × Json)) (vs : List T) (v : T)
      → CountsFrom k es
      → Decodes es vs
      → get_elem? vs i ≡ some v
      → (json : Json) × (find_seq (k + i) es ≡ some json) × (codec.from_str json ≡ ok v)
  unfolding find_seq
  find-Decodes k i [] [] v c d h = ground arith
  find-Decodes k i [] (x ∷ vs) v c d h = absurd d
  find-Decodes k i (e ∷ es) [] v c d h = absurd d
  find-Decodes k zero ((s, json) ∷ es) (x ∷ vs) v c d h = (json, ground arith, ground arith)
  find-Decodes k (suc i) ((s, json) ∷ es) (x ∷ vs) v c d h =
      let (found, f, q) = find-Decodes (suc k) i es vs v c.1 d.1 h in (found, ground arith, q)

module _ {WorkflowId T Json JsonError : Type 0} (same_id : Discrete WorkflowId)
    (is_blank : WorkflowId → Bool) (codec : Codec T Json JsonError)
    (lossless : Lossless codec) where
  abbrev pub StubHolds : NetworkJournalStub WorkflowId Json → WorkflowId → List T → Type 0
  StubHolds j id vs =
      (j.registered id ≡ true) × CountsFrom 0 (j.inner id) × Decodes codec (j.inner id) vs

  stub_appends :
      (j : NetworkJournalStub WorkflowId Json) (id : WorkflowId) (vs : List T) (v : T)
      → StubHolds j id vs
      → (j' : NetworkJournalStub WorkflowId Json) × ((stub_journal same_id is_blank
              codec).run_step_typed
            j id
            (length vs)
            (ok v)
          ≡ (ok v, j'))
        × StubHolds j' id (vs ++ v ∷ [])
  unfolding run_step_typed has_workflow completed_json store_step
  stub_appends j id vs v (r, c, d) =
      let (json, q, q') = lossless v in
      let n = length-Decodes codec (j.inner id) vs d in
      let at_end =
        set_at_same same_id j.inner id (insert_seq (length vs) json (j.inner id))
        ∙ insert_beyond 0 (length vs) json (j.inner id) c (omega (arith, n)) in
      (
        store_step same_id j id (length vs) json,
        rw (r, r, find_beyond 0 (length vs) (j.inner id) c (omega (arith, n)), record_step, q) refl,
        (
          r,
          rw at_end (append-CountsFrom 0 (length vs) json (j.inner id) c (omega (arith, n))),
          rw at_end (append-Decodes codec (j.inner id) vs (length vs) json v d q'),
        ),
      )

  register_fresh :
      (j : NetworkJournalStub WorkflowId Json) (id : WorkflowId)
      (j' : NetworkJournalStub WorkflowId Json)
      → ((id : WorkflowId) → j.registered id ≡ false → j.inner id ≡ [])
      → (stub_journal same_id is_blank codec).register_workflow j id ≡ (ok tt, j')
      → StubHolds j' id []
  unfolding register_workflow
  register_fresh j id j' valid h = elim (Bool-cases (is_blank id)) [
    | inl b ↦ ground arith
    | inr b ↦ elim (Bool-cases (j.registered id)) [
      | inl e ↦ ground arith
      | inr e ↦
          let left : j' ≡ record j { registered = set_at same_id j.registered id true } =
            ground arith in
          rw left (set_at_same same_id j.registered id true, rw (valid id e) tt, rw (valid id e) tt)
    ]
  ]

  pub stub_keeps_contract : JournalLaws (stub_journal same_id is_blank codec) codec.from_str
  unfolding has_workflow completed_json completed_step_count register_workflow
  stub_keeps_contract = record {
    IsValid = λ j. (id : WorkflowId) → j.registered id ≡ false → j.inner id ≡ [];
    Holds = StubHolds;
    has = λ j id vs h. ap ok h.0;
    count = λ j id vs (r, c, d). rw (r, length-Decodes codec (j.inner id) vs d) refl;
    read = λ j id vs i v (r, c, d) e.
        let (json, f, q) = find-Decodes codec 0 i (j.inner id) vs v c d e in
        (json, ground (arith, r, f), q);
    append = stub_appends;
    register = λ j id j' valid h. register_fresh j id j' valid h;
  }

  pub new-IsValid : stub_keeps_contract.IsValid new
  unfolding stub_keeps_contract
  new-IsValid = λ id h. refl
