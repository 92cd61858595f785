-- ===== src/Stm/Alone.antt =====
-- A transaction that no other thread disturbs, and `or_else`.
use mathlib.Core.Path.{subst}
use effect_rs.Prelude.{
  ℕ, zero, suc, ◌≡◌, refl, sym, ap, ◌∙◌, true, Option, none, some, Result, ok, err, inl, inr,
}
use effect_rs.Stm.Heap.{Heap, World, write_cell, write_all, turn, turn_with, quiet}
use effect_rs.Stm.Txn
use effect_rs.Stm.Txn.{Txn, validate, sort_writes, insert_write, try_commit}
use effect_rs.Stm.Program.{Stm, Outcome, done, fail, retry, succeed, retry_now, or_else, flat_map}
use effect_rs.Stm.Cell.{write_stm}
use effect_rs.Stm.Replays.{
  Replays, Replays-or_else, Replays-flat_map, Replays-succeed, Replays-retry_now,
}
use effect_rs.Stm.CellReplays.{Replays-write_stm}
use effect_rs.Stm.Commit.{commit}
use effect_rs.Stm.Serial.{Outcome-cases, commit-fail, commit-retry, commit-valid}

module _ {ℓ} {V A E : Type ℓ} where
  -- What a committed attempt returns and leaves, by its outcome.
  abbrev pub alone_result : Heap V → Txn V → Outcome A E → Option (Result A E × World V)
  alone_result h log (done a) = some (ok a, quiet (write_all h (sort_writes log.commit_writes)))
  alone_result h log (fail e) = some (err e, quiet h)
  alone_result h log retry = none

  retry_result :
      (h : Heap V) (log : Txn V) {o : Outcome A E} → o ≡ retry → alone_result h log o ≡ none
  retry_result h log e = rw e

  alone_from :
      (fuel : ℕ) (stm : Stm V A E) (h : Heap V)
      → Replays stm
      → ((stm (quiet h) Txn.new).0 ≡ retry → commit fuel stm (quiet h) ≡ none)
      → commit (suc fuel) stm (quiet h)
        ≡ alone_result h (stm (quiet h) Txn.new).2 (stm (quiet h) Txn.new).0
  unfolding turn turn_with
  alone_from fuel stm h r blocked =
      let (still, v) = r.alone h Txn.new (λ id z. cc) (unfold validate in refl) in
      let log = (stm (quiet h) Txn.new).2 in
      elim (Outcome-cases (stm (quiet h) Txn.new).0) [
        | inl (a, e) ↦
            let good : Result A E = ok a in
            commit-valid stm fuel (quiet h) a e (
              subst (λ (w : World V). validate (turn w).heap log.read_validators ≡ true) (sym still)
                v)
            ∙ ap
                (λ (w : World V). some (
                  good,
                  record (turn w) {
                    heap = write_all (turn w).heap (sort_writes log.commit_writes);
                  },
                ))
                still
            ∙ sym (ap (alone_result h log) e)
        | inr (inl (x, e)) ↦
            let bad : Result A E = err x in
            commit-fail stm fuel (quiet h) x e
            ∙ ap (λ (w : World V). some (bad, w)) still
            ∙ sym (ap (alone_result h log) e)
        | inr (inr e) ↦
            commit-retry stm fuel (quiet h) e
            ∙ ap (λ (w : World V). commit fuel stm (turn w)) still
            ∙ blocked e
            ∙ sym (ap (alone_result h log) e)
      ]

  pub alone_of_Replays :
      (fuel : ℕ) (stm : Stm V A E) (h : Heap V)
      → Replays stm
      → commit (suc fuel) stm (quiet h)
        ≡ alone_result h (stm (quiet h) Txn.new).2 (stm (quiet h) Txn.new).0
  alone_of_Replays zero stm h r = alone_from zero stm h r (λ e. unfold commit in refl)
  alone_of_Replays (suc fuel) stm h r =
      alone_from (suc fuel) stm h r
        (λ e. alone_of_Replays fuel stm h r ∙ retry_result h (stm (quiet h) Txn.new).2 e)

-- The writes of the first program of an `or_else` are committed although it has retried: writing
-- a cell and retrying, or else succeeding with `a`, returns `a` and leaves the cell written.
pub or_else_keeps_writes {ℓ} :
    {V A E : Type ℓ} (h : Heap V) (id : ℕ) (v : V) (a : A)
    → commit {E = E} 1 (or_else (flat_map (write_stm id v) (λ _. retry_now)) (succeed a)) (quiet h)
      ≡ some (ok a, quiet (write_cell h id v))
unfolding or_else flat_map write_stm retry_now succeed turn turn_with write_all sort_writes
or_else_keeps_writes h id v a =
    alone_of_Replays 0 (or_else (flat_map (write_stm id v) (λ _. retry_now)) (succeed a)) h (
      Replays-or_else _ _ (Replays-flat_map _ _ (Replays-write_stm id v) (λ _. Replays-retry_now))
        (Replays-succeed a))
