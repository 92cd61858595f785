-- ===== src/Resources/Finishing.antt =====
-- A scope is marked as closed, and its finalizers are drained and run.
use effect_rs.Prelude.{
  ℕ, suc, ◌≡◌, refl, sym, ap, ◌∙◌, Bool, true, false, some, List, [], ◌++◌, ◌==◌, if◌then◌else◌,
  arith, inl, inr, Bool-cases, ==_iff,
}
use mathlib.Core.Path.{subst}
use effect_rs.Resources.Scopes.{
  marked, drained, ScopeInner, Scopes, update_at, update, inner_of, upgrade, last_first, run_with,
  finalize,
}
use effect_rs.Resources.Store.{
  open_count, accounted, runs-append, runs-run_with, occurrences-last_first, get-update_at,
  pending-update_at, open_count-update_at,
}
use effect_rs.Coordination.Offers.{append_nil}
use effect_rs.Resources.Closing.{Keeps, IsClosedAt, append_assoc, named, upgrade-Keeps}
use effect_rs.Resources.Sweeps.{Sweeps, ended}
use effect_rs.Resources.Families.{Finished}

alive-if : (b : Bool) (k : ScopeInner) → (if b then marked k else k).alive ≡ k.alive
alive-if true k = refl
alive-if false k = refl

alive-drained : (b : Bool) (k : ScopeInner) → (if b then drained k else k).alive ≡ k.alive
alive-drained true k = refl
alive-drained false k = refl

closed-drained : (b : Bool) (k : ScopeInner) → (if b then drained k else k).closed ≡ k.closed
closed-drained true k = refl
closed-drained false k = refl

module _ {Exit : Type 0} where
  module _ (id : ℕ) (i : ScopeInner) (scopes : Scopes Exit) (here : inner_of id scopes ≡ some i)
      (is_open : i.closed ≡ false) where
    pub mark-others :
        (j : ℕ) (k : ScopeInner) → inner_of j scopes ≡ some k → k.closed ≡ true → (id == j) ≡ false
    mark-others j k e c = elim (Bool-cases (id == j)) [
      | inr other ↦ other
      | inl same ↦
          let at_j : inner_of j scopes ≡ some i =
            subst (λ n. inner_of n scopes ≡ some i) ((==_iff id j).0 same) here in
          absurd (ground (arith, at_j, e, c, is_open, λ (e : i ≡ k). ap (λ z. z.closed) e))
    ]

    pub mark-fewer : suc (open_count (update id marked scopes).inners) ≡ open_count scopes.inners
    mark-fewer = ground (arith, open_count-update_at id marked scopes.inners i here, is_open)

    mark-same : (f : ℕ) → accounted f (update id marked scopes) ≡ accounted f scopes
    mark-same f = omega (arith, pending-update_at f id marked scopes.inners i here)

    pub mark-Keeps : Keeps scopes (update id marked scopes)
    mark-Keeps = record {
      shut = λ j k e c.
          get-update_at id j marked scopes.inners k e
          ∙ ap (λ b. some (if b then marked k else k)) (mark-others j k e c);
      stays = λ j k e. (
        if id == j then marked k else k,
        get-update_at id j marked scopes.inners k e,
        alive-if (id == j) k,
      );
      fewer = omega (arith, mark-fewer);
      same = mark-same;
      later = ([], sym (append_nil scopes.ran));
    }

  module _ (exit : Exit) (id : ℕ) (i : ScopeInner) (scopes : Scopes Exit)
      (here : inner_of id scopes ≡ some i) where
    pub done : Scopes Exit
    done = record {
      inners = update_at id drained scopes.inners;
      ran = scopes.ran ++ run_with exit (last_first i.finalizers);
    }

    pub finalize-done : finalize exit id scopes ≡ done
    unfolding finalize done
    finalize-done = rw (finalize, here) refl

    done-count : open_count done.inners ≡ open_count scopes.inners
    unfolding done
    done-count = ground (arith, open_count-update_at id drained scopes.inners i here)

    done-same : (f : ℕ) → accounted f done ≡ accounted f scopes
    unfolding done
    done-same f =
        let moved = pending-update_at f id drained scopes.inners i here in
        let ran = runs-append f scopes.ran (run_with exit (last_first i.finalizers)) in
        omega (
          arith,
          moved,
          ran,
          runs-run_with f exit (last_first i.finalizers),
          occurrences-last_first f i.finalizers,
        )

    done-at :
        (j : ℕ) (k : ScopeInner)
        → inner_of j scopes ≡ some k
        → inner_of j done ≡ some (if id == j then drained k else k)
    unfolding done
    done-at j k e = get-update_at id j drained scopes.inners k e

  module _ (exit : Exit) (id : ℕ) (i : ScopeInner) (scopes next : Scopes Exit)
      (here : inner_of id scopes ≡ some i) (is_open : i.closed ≡ false) (keeps : Keeps scopes next)
      (at_next : inner_of id next ≡ some (marked i)) where
    done-Keeps : Keeps scopes (done exit id (marked i) next at_next)
    unfolding done
    done-Keeps = record {
      shut = λ j k e c.
          done-at exit id (marked i) next at_next j k (keeps.shut j k e c)
          ∙ ap (λ b. some (if b then drained k else k))
              (mark-others id i scopes here is_open j k e c);
      stays = λ j k e.
          let (k', e', alive) = keeps.stays j k e in
          (
            if id == j then drained k' else k',
            done-at exit id (marked i) next at_next j k' e',
            alive-drained (id == j) k' ∙ alive,
          );
      fewer = omega (arith, done-count exit id (marked i) next at_next, keeps.fewer);
      same = λ f. done-same exit id (marked i) next at_next f ∙ keeps.same f;
      later =
          let (new, e) = keeps.later in
          (
            new ++ run_with exit (last_first i.finalizers),
            ap (λ r. r ++ run_with exit (last_first i.finalizers)) e
                ∙ append_assoc scopes.ran new (run_with exit (last_first i.finalizers)),
          );
    }

    closed-done : (c : ℕ) → IsClosedAt c next → IsClosedAt c (done exit id (marked i) next at_next)
    closed-done c (k, e, shut) = (
      if id == c then drained k else k,
      done-at exit id (marked i) next at_next c k e,
      closed-drained (id == c) k ∙ shut,
    )

    done-other :
        (j : ℕ) (k : ScopeInner)
        → (id == j) ≡ false
        → inner_of j next ≡ some k
        → inner_of j (done exit id (marked i) next at_next) ≡ some k
    done-other j k other e =
        done-at exit id (marked i) next at_next j k e
        ∙ ap (λ b. some (if b then drained k else k)) other

    mark-other :
        (j : ℕ) (k : ScopeInner)
        → (id == j) ≡ false
        → inner_of j scopes ≡ some k
        → inner_of j (update id marked scopes) ≡ some k
    mark-other j k other e =
        get-update_at id j marked scopes.inners k e
        ∙ ap (λ b. some (if b then marked k else k)) other

    pub finished :
        (inner : List (ℕ × Exit))
        → Sweeps exit inner (update id marked scopes) next
        → ((c : ℕ) → named c i.children ≡ true → upgrade c scopes ≡ true → IsClosedAt c next)
        → Finished exit id i scopes (done exit id (marked i) next at_next)
    unfolding done
    finished inner (ran, each) kids = record {
      keeps = done-Keeps;
      left =
          done-at exit id (marked i) next at_next id (marked i) at_next
          ∙ ap (λ b. some (if b then drained (marked i) else marked i)) ((==_iff id id).1 refl);
      children_closed = λ c m u. closed-done c (kids c m u);
      inner = inner;
      own_last = ap (λ r. r ++ run_with exit (last_first i.finalizers)) ran;
      others = λ j k e other. elim (each j k (mark-other j k other e)) [
        | inl same ↦ inl (done-other j k other same)
        | inr (was_open, end, run, below) ↦ inr (
          was_open,
          done-other j (ended k) other end,
          run,
          λ c m u. closed-done c (
              below c m (
                upgrade-Keeps c scopes (update id marked scopes)
                  (mark-Keeps id i scopes here is_open) u)),
        )
      ];
    }
