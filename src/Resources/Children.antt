-- ===== src/Resources/Children.antt =====
-- The loop over the children of a scope that is closed.
use effect_rs.Prelude.{
  ℕ, ◌≡◌, ◌≤◌, refl, ap, Bool, true, Option, some, List, [], ◌∷◌, ◌++◌, ◌==◌, arith, inl, inr,
  Bool-cases, ==_iff,
}
use mathlib.Core.Path.{subst}
use effect_rs.Resources.Scopes.{Scopes, upgrade, close_each}
use effect_rs.Resources.Store.{open_count}
use effect_rs.Resources.Closing.{
  named, IsClosedAt, IsClosedAt-Keeps, Keeps, Keeps-refl, Keeps-trans, upgrade-Keeps,
}
use effect_rs.Resources.Sweeps.{Sweeps, Sweeps-refl, Sweeps-trans}

module _ {Exit : Type 0} where
  -- A step that closes one scope of a store with at most `n` open ones.
  abbrev pub Closes : Exit → ℕ → (ℕ → Scopes Exit → Option (Bool × Scopes Exit)) → Type 0
  Closes exit n close =
      (id : ℕ) (scopes : Scopes Exit)
      → open_count scopes.inners ≤ n
      → (first : Bool) × (after : Scopes Exit) × (close id scopes ≡ some (first, after))
        × Keeps scopes after
        × (upgrade id scopes ≡ true → IsClosedAt id after)
        × (new : List (ℕ × Exit)) × Sweeps exit new scopes after

  pub close_each-Keeps :
      (exit : Exit) (n : ℕ) (close : ℕ → Scopes Exit → Option (Bool × Scopes Exit))
      (children : List ℕ) (scopes : Scopes Exit)
      → Closes exit n close
      → open_count scopes.inners ≤ n
      → (after : Scopes Exit) × (close_each close children scopes ≡ some after)
        × Keeps scopes after
        × ((c : ℕ) → named c children ≡ true → upgrade c scopes ≡ true → IsClosedAt c after)
        × (new : List (ℕ × Exit)) × Sweeps exit new scopes after
  unfolding close_each
  close_each-Keeps exit n close [] scopes h small =
      (scopes, refl, Keeps-refl scopes, λ c m u. absurd (cc m), [], Sweeps-refl exit scopes)
  close_each-Keeps exit n close (child ∷ children) scopes h small =
      elim (Bool-cases (upgrade child scopes)) [
        | inr dead ↦
            let (after, run, keeps, closed, new, swept) =
              close_each-Keeps exit n close children scopes h small in
            (
              after,
              rw (close_each, dead) run,
              keeps,
              λ c m u.
                  closed c
                    (ground (arith, dead, u, λ (e : child ≡ c). ap (λ k. upgrade k scopes) e)) u,
              new,
              swept,
            )
        | inl live ↦
            let (first, next, step, keeps, shut, new, swept) = h child scopes small in
            let (after, run, keeps', closed, new', swept') =
              close_each-Keeps exit n close children next h (omega (arith, keeps.fewer)) in
            (
              after,
              rw (close_each, live, step) run,
              Keeps-trans scopes next after keeps keeps',
              λ c m u. elim (Bool-cases (child == c)) [
                | inl e ↦
                    subst (λ k. IsClosedAt k after) ((==_iff child c).0 e)
                      (IsClosedAt-Keeps child next after keeps' (shut live))
                | inr e ↦ closed c (ground arith) (upgrade-Keeps c scopes next keeps u)
              ],
              new ++ new',
              Sweeps-trans exit new new' scopes next after keeps keeps' swept swept',
            )
      ]
