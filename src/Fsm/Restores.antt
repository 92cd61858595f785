-- ===== src/Fsm/Restores.antt =====
-- Machines stepped through a journal, and restored from it.
use effect_rs.Prelude.{
  ℕ, suc, ◌+◌, ◌-◌, ◌%◌, ◌^◌, ◌≤◌, ◌<◌, ◌≡◌, refl, sym, ap, ◌∙◌, false, Option, none, some, List,
  [], ◌∷◌, ◌++◌, arith, Result, ok, err, ◌==◌, length, get_elem?, inl, inr, Option-cases, Run-cases,
}
use effect_rs.Fsm.Machine.{StateMachine, Key, no_transition, next, step, set_state}
use effect_rs.Workflow.Journal.{StepJournal}
use effect_rs.Workflow.Contract.{JournalLaws}
use effect_rs.Fsm.Durable.{
  FsmSnapshot, transition_failed, register_fsm, step_durable, restore_state, persist, load,
  init_fsm,
}

get-last : {A : Type 0} (vs : List A) (v : A) → get_elem? (vs ++ v ∷ []) (length vs) ≡ some v
get-last [] v = refl
get-last (x ∷ vs) v = get-last vs v

length-snoc : {A : Type 0} (vs : List A) (v : A) → length (vs ++ v ∷ []) ≡ suc (length vs)
length-snoc [] v = refl
length-snoc (x ∷ vs) v = omega (arith, length-snoc vs v)

module _ {S E : Type 0} (k : Key S E) where
  -- The machine after some events, errors being passed over.
  unfoldable pub step_each : StateMachine S E → List E → StateMachine S E
  step_each machine [] = machine
  step_each machine (event ∷ events) = step_each (step k machine event).1 events

module _ {S E J WorkflowId Json JsonError : Type 0} (k : Key S E)
    (ops : StepJournal J WorkflowId (FsmSnapshot S) Json JsonError) where
  -- The same, through the journal.
  unfoldable pub step_all : J → WorkflowId → StateMachine S E → List E → J × StateMachine S E
  step_all log id machine [] = (log, machine)
  step_all log id machine (event ∷ events) =
      let (r, log', machine') = step_durable k ops log id machine event in
      step_all log' id machine' events

module _ {S E J WorkflowId Json JsonError : Type 0} (k : Key S E)
    (ops : StepJournal J WorkflowId (FsmSnapshot S) Json JsonError)
    (from_str : Json → Result (FsmSnapshot S) JsonError) (laws : JournalLaws ops from_str) where
  -- The journal's last entry is the machine's state, and there are at most n entries.
  abbrev pub IsSynced : ℕ → J → WorkflowId → StateMachine S E → Type 0
  IsSynced n log id machine =
      (vs : List (FsmSnapshot S)) × (snap : FsmSnapshot S) × laws.Holds log id (vs ++ snap ∷ [])
      × (suc (length vs) ≤ n)
      × (snap.state ≡ machine.current)

  -- What `step_durable` does where the table gives `to`, or no state.
  abbrev pub Appends :
      J → WorkflowId → StateMachine S E → E → List (FsmSnapshot S) → Option S → Type 0
  Appends log id machine event vs none =
      step_durable k ops log id machine event
      ≡ (err (transition_failed (no_transition machine.current event)), log, machine)
  Appends log id machine event vs (some to) =
      (log' : J) × (step_durable k ops log id machine event
        ≡ (ok (record { state = to; seq = length vs }), log', record machine { current = to }))
      × laws.Holds log' id (vs ++ record { state = to; seq = length vs } ∷ [])

  step_durable-none :
      (log : J) (id : WorkflowId) (machine : StateMachine S E) (event : E)
      (vs : List (FsmSnapshot S))
      → laws.Holds log id vs
      → next k machine.table machine.current event ≡ none
      → Appends log id machine event vs none
  unfolding step_durable
  step_durable-none log id machine event vs holds e =
      rw (Appends, step_durable, laws.has log id vs holds, laws.count log id vs holds, e) refl

  step_durable-some :
      (log : J) (id : WorkflowId) (machine : StateMachine S E) (event : E)
      (vs : List (FsmSnapshot S)) (to : S)
      → laws.Holds log id vs
      → length vs < 2 ^ 32
      → next k machine.table machine.current event ≡ some to
      → Appends log id machine event vs (some to)
  unfolding step_durable set_state
  step_durable-some log id machine event vs to holds small e =
      let same : length vs % 2 ^ 32 ≡ length vs = omega arith in
      let counted = laws.count log id vs holds ∙ ap ok same in
      let (log', ran, holds') =
        laws.append log id vs (record { state = to; seq = length vs }) holds in
      (
        log',
        rw (step_durable, laws.has log id vs holds, counted, e, persist, ran, ran) refl,
        holds',
      )

  -- In a journal that keeps the contract, on a workflow with the given results, of which there are
  -- fewer than 2 ^ 32, `step_durable` fails where the table has no edge, and then changes nothing;
  -- otherwise it moves the machine along the edge and appends the snapshot of the new state.
  pub step_durable-Appends :
      (log : J) (id : WorkflowId) (machine : StateMachine S E) (event : E)
      (vs : List (FsmSnapshot S))
      → laws.Holds log id vs
      → length vs < 2 ^ 32
      → Appends log id machine event vs (next k machine.table machine.current event)
  step_durable-Appends log id machine event vs holds small =
      elim (Option-cases (next k machine.table machine.current event)) [
        | inl e ↦ rw e (step_durable-none log id machine event vs holds e)
        | inr (to, e) ↦ rw e (step_durable-some log id machine event vs to holds small e)
      ]

  -- The machine that is restored takes the state of the last entry.
  restore_synced :
      (n : ℕ) (log : J) (id : WorkflowId) (machine other : StateMachine S E)
      → IsSynced n log id machine
      → n < 2 ^ 32
      → (restore_state ops from_str log id other).1 ≡ record other { current = machine.current }
  unfolding restore_state set_state
  restore_synced n log id machine other (vs, snap, holds, few, at) small =
      let total = length-snoc vs snap in
      let same : length (vs ++ snap ∷ []) % 2 ^ 32 ≡ suc (length vs) = omega (arith, total) in
      let nonzero : (suc (length vs) == 0) ≡ false = ground arith in
      let last : suc (length vs) - 1 ≡ length vs = omega arith in
      let (json, found, decoded) =
        laws.read log id (vs ++ snap ∷ []) (length vs) snap holds (get-last vs snap) in
      rw
        (
          restore_state,
          laws.count log id (vs ++ snap ∷ []) holds,
          same,
          nonzero,
          last,
          found,
          load,
          decoded,
          at,
        )
        refl

  step_durable-IsSynced :
      (n : ℕ) (log : J) (id : WorkflowId) (machine : StateMachine S E) (event : E)
      → IsSynced n log id machine
      → suc n < 2 ^ 32
      → IsSynced
          (suc n)
          (step_durable k ops log id machine event).1
          id
          (step_durable k ops log id machine event).2
        × ((step_durable k ops log id machine event).2 ≡ (step k machine event).1)
  unfolding step
  step_durable-IsSynced n log id machine event (vs, snap, holds, few, at) small =
      let total = length-snoc vs snap in
      elim (Option-cases (next k machine.table machine.current event)) [
        | inl e ↦
            let same = step_durable-none log id machine event (vs ++ snap ∷ []) holds e in
            rw (same, e) ((vs, snap, holds, omega arith, at), refl)
        | inr (to, e) ↦
            let (log', same, holds') =
              step_durable-some log id machine event (vs ++ snap ∷ []) to holds
                (omega (arith, total)) e in
            rw (same, e)
              (
                (
                  vs ++ snap ∷ [],
                  record { state = to; seq = length (vs ++ snap ∷ []) },
                  holds',
                  omega (arith, total),
                  refl,
                ),
                refl,
              )
      ]

  step_all-IsSynced :
      (n : ℕ) (log : J) (id : WorkflowId) (machine : StateMachine S E) (events : List E)
      → IsSynced n log id machine
      → n + length events < 2 ^ 32
      → IsSynced
          (n + length events)
          (step_all k ops log id machine events).0
          id
          (step_all k ops log id machine events).1
        × ((step_all k ops log id machine events).1 ≡ step_each k machine events)
  unfolding step_all step_each
  step_all-IsSynced n log id machine [] synced small =
      let (vs, snap, holds, few, at) = synced in ((vs, snap, holds, omega arith, at), refl)
  step_all-IsSynced n log id machine (event ∷ events) synced small =
      let (synced', same) = step_durable-IsSynced n log id machine event synced (omega arith) in
      let ((vs, snap, holds, few, at), walked) =
        step_all-IsSynced (suc n) (step_durable k ops log id machine event).1 id
          (step_durable k ops log id machine event).2 events synced' (omega arith) in
      ((vs, snap, holds, omega arith, at), walked ∙ ap (λ m. step_each k m events) same)

  register_fsm-IsSynced :
      (log : J) (id : WorkflowId) (machine : StateMachine S E) (snap : FsmSnapshot S) (log' : J)
      → laws.IsValid log
      → register_fsm ops log id machine ≡ (ok snap, log')
      → IsSynced 1 log' id machine
  unfolding register_fsm
  register_fsm-IsSynced log id machine snap log' valid h =
      elim (Run-cases (ops.register_workflow log id)) [
        | inl (t, log1, e) ↦
            let first : FsmSnapshot S = record { state = machine.current; seq = 0 } in
            let holds = laws.register log id log1 valid e in
            let (log2, ran, holds') = laws.append log1 id [] first holds in
            let both : register_fsm ops log id machine ≡ (ok first, log2) =
              rw (register_fsm, e, e, init_fsm, ran, e, ran) refl in
            rw (ap (λ p. p.1) (sym h ∙ both)) ([], first, holds', omega arith, refl)
        | inr (x, log1, e) ↦ ground arith
      ]

  -- Durability, over any journal that keeps the contract: register a machine in a valid journal,
  -- step it through the journal on any events, fewer than 2 ^ 32 - 1, errors being passed over, and
  -- restore any machine from the journal. The restored machine is in the state that the stepped
  -- machine is in, and that machine is the one that `step` alone leads to.
  pub restore-follows_steps :
      (log : J) (id : WorkflowId) (machine other : StateMachine S E) (snap : FsmSnapshot S)
      (log' : J) (events : List E)
      → laws.IsValid log
      → register_fsm ops log id machine ≡ (ok snap, log')
      → suc (length events) < 2 ^ 32
      → ((restore_state ops from_str (step_all k ops log' id machine events).0 id other).1
          ≡ record other { current = (step_each k machine events).current })
        × ((step_all k ops log' id machine events).1 ≡ step_each k machine events)
  restore-follows_steps log id machine other snap log' events valid h small =
      let (synced, walked) =
        step_all-IsSynced 1 log' id machine events
          (register_fsm-IsSynced log id machine snap log' valid h) (omega arith) in
      (
        restore_synced (1 + length events) (step_all k ops log' id machine events).0 id
              (step_all k ops log' id machine events).1 other synced (omega arith)
            ∙ ap (λ m. record other { current = m.current }) walked,
        walked,
      )
