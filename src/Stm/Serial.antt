-- ===== src/Stm/Serial.antt =====
-- Commits of programs that replay, against serial executions.
use mathlib.Core.Path.{subst, subst₂}
use effect_rs.Prelude.{
  ℕ, zero, suc, ◌+◌, ◌≤◌, ◌<◌, ◌≡◌, refl, sym, ap, ◌∙◌, Bool, true, false, some, Result, ok, err,
  Bool-cases, ◌⊎◌, inl, inr, arith,
}
use effect_rs.Stm.Heap.{World, version_mod, write_all, turn, turn_with, turns, pending, quiet}
use effect_rs.Stm.Later.{turn-Later, turns-add}
use effect_rs.Stm.Txn
use effect_rs.Stm.Txn.{Txn, validate, sort_writes, try_commit}
use effect_rs.Stm.Program.{Stm, Outcome, done, fail, retry}
use effect_rs.Stm.Replays.{Replays, settled}
use effect_rs.Stm.Commit.{commit}

pub Outcome-cases {ℓ} :
    {A E : Type ℓ} (o : Outcome A E)
    → ((a : A) × (o ≡ done a)) ⊎ (((e : E) × (o ≡ fail e)) ⊎ (o ≡ retry))
Outcome-cases (done a) = inl (a, refl)
Outcome-cases (fail e) = inr (inl (e, refl))
Outcome-cases retry = inr (inr refl)

module _ {ℓ} {V A E : Type ℓ} (stm : Stm V A E) where
  pub commit-fail :
      (fuel : ℕ) (w : World V) (e : E)
      → (stm w Txn.new).0 ≡ fail e
      → commit (suc fuel) stm w ≡ some (err e, (stm w Txn.new).1)
  unfolding commit
  commit-fail fuel w e h = ground arith

  pub commit-retry :
      (fuel : ℕ) (w : World V)
      → (stm w Txn.new).0 ≡ retry
      → commit (suc fuel) stm w ≡ commit fuel stm (turn (stm w Txn.new).1)
  unfolding commit
  commit-retry fuel w h = ground arith

  -- What the commit of a log leaves.
  abbrev pub committed : World V → World V
  committed w =
      let (o, w1, txn) = stm w Txn.new in
      record (turn w1) { heap = write_all (turn w1).heap (sort_writes txn.commit_writes) }

  abbrev pub log_valid : World V → Bool
  log_valid w = validate (turn (stm w Txn.new).1).heap (stm w Txn.new).2.read_validators

  pub commit-valid :
      (fuel : ℕ) (w : World V) (a : A)
      → (stm w Txn.new).0 ≡ done a
      → log_valid w ≡ true
      → commit (suc fuel) stm w ≡ some (ok a, committed w)
  unfolding commit try_commit
  commit-valid fuel w a h v = ground arith

  pub commit-invalid :
      (fuel : ℕ) (w : World V) (a : A)
      → (stm w Txn.new).0 ≡ done a
      → log_valid w ≡ false
      → commit (suc fuel) stm w ≡ commit fuel stm (turn (turn (stm w Txn.new).1))
  unfolding commit try_commit
  commit-invalid fuel w a h v = ground arith

  -- The attempt in `w` has run on a heap that no one else has changed since: what it commits is
  -- what the program commits alone on that heap.
  attempt_alone :
      (w : World V) (a : A)
      → Replays stm
      → pending w < version_mod
      → (stm w Txn.new).0 ≡ done a
      → log_valid w ≡ true
      → commit 1 stm (quiet (turn (stm w Txn.new).1).heap) ≡ some (ok a, quiet (committed w).heap)
  unfolding turn turn_with
  attempt_alone w a r small h v =
      let (o, w1, txn) = stm w Txn.new in
      let (n0, e0, l0) = settled stm r w Txn.new in
      let (n, e, l) = turn-Later w1 in
      let same = r.replays w Txn.new n (turn w1).heap (λ id z. cc) small (omega arith) l v in
      let fits = commit-valid 0 (quiet (turn w1).heap) a (rw same h) (rw same v) in
      let good : Result A E = ok a in
      fits
      ∙ ap
          (λ (x : Outcome A E × World V × Txn V). some (
            good,
            record (turn x.1) { heap = write_all (turn x.1).heap (sort_writes x.2.commit_writes) },
          ))
          same

  -- After some turns of the other threads, the program, run alone on the heap that stands then,
  -- commits `a` and leaves the heap of `w'`, in which the other threads' later turns are still to
  -- come.
  abbrev pub SerialAt : World V → A → World V → Type ℓ
  SerialAt w a w' =
      (k : ℕ) × (w'.others ≡ (turns k w).others)
      × (commit 1 stm (quiet (turns k w).heap) ≡ some (ok a, quiet w'.heap))

  -- From the world after some turns of the other threads to the world before them.
  SerialAt-earlier :
      (j : ℕ) (w w1 : World V) (a : A) (w' : World V)
      → w1 ≡ turns j w
      → SerialAt w1 a w'
      → SerialAt w a w'
  SerialAt-earlier j w w1 a w' e (k, left, c) =
      let same : turns k w1 ≡ turns (j + k) w = ap (turns k) e ∙ turns-add j k w in
      (
        j + k,
        left ∙ ap (λ (x : World V). x.others) same,
        subst (λ (x : World V). commit 1 stm (quiet x.heap) ≡ some (ok a, quiet w'.heap)) same c,
      )

  turn-SerialAt : (w : World V) (a : A) (w' : World V) → SerialAt (turn w) a w' → SerialAt w a w'
  turn-SerialAt w a w' s = SerialAt-earlier 1 w (turn w) a w' refl s

  attempt-SerialAt :
      (w : World V) (a : A) (w' : World V)
      → Replays stm
      → SerialAt (stm w Txn.new).1 a w'
      → SerialAt w a w'
  attempt-SerialAt w a w' r s =
      let (k, e) = r.settles w Txn.new in SerialAt-earlier k w (stm w Txn.new).1 a w' e s

  committed-SerialAt :
      (w : World V) (a : A)
      → Replays stm
      → pending w < version_mod
      → (stm w Txn.new).0 ≡ done a
      → log_valid w ≡ true
      → SerialAt w a (committed w)
  committed-SerialAt w a r small h v =
      attempt-SerialAt w a (committed w) r (1, refl, attempt_alone w a r small h v)

  pending-turn-le : (w : World V) → pending (turn w) ≤ pending w
  pending-turn-le w = let (n, e, l) = turn-Later w in omega arith

  pending-attempt-le : (w : World V) → Replays stm → pending (stm w Txn.new).1 ≤ pending w
  pending-attempt-le w r = let (n, e, l) = settled stm r w Txn.new in omega arith

  pub serial_of_Replays :
      (fuel : ℕ) (w : World V) (a : A) (w' : World V)
      → Replays stm
      → pending w < version_mod
      → commit fuel stm w ≡ some (ok a, w')
      → SerialAt w a w'
  serial_of_Replays zero w a w' r small h = absurd (unfold commit in cc h)
  serial_of_Replays (suc fuel) w a w' r small h =
      let w1 = (stm w Txn.new).1 in
      elim (Outcome-cases (stm w Txn.new).0) [
        | inl (b, e) ↦ elim (Bool-cases (log_valid w)) [
          | inl v ↦
              let same_value : b ≡ a = cc (commit-valid fuel w b e v) in
              let same_world : committed w ≡ w' = cc (commit-valid fuel w b e v) in
              subst₂ (SerialAt w) same_value same_world (committed-SerialAt w b r small e v)
          | inr v ↦ attempt-SerialAt w a w' r (
              turn-SerialAt w1 a w' (
                turn-SerialAt (turn w1) a w' (
                  serial_of_Replays fuel (turn (turn w1)) a w' r
                    (omega (
                      arith,
                      pending-turn-le (turn w1),
                      pending-turn-le w1,
                      pending-attempt-le w r,
                    ))
                    (sym (commit-invalid fuel w b e v) ∙ h))))
        ]
        | inr (inl (x, e)) ↦ cc (commit-fail fuel w x e)
        | inr (inr e) ↦ attempt-SerialAt w a w' r (
            turn-SerialAt w1 a w' (
              serial_of_Replays fuel (turn w1) a w' r
                (omega (arith, pending-turn-le w1, pending-attempt-le w r))
                (sym (commit-retry fuel w e) ∙ h)))
      ]
