-- ===== src/Resources/Lifecycle.antt =====
-- The whole of `close_with_exit`, and the operations on a scope that is closed.
use effect_rs.Prelude.{
  ℕ, zero, suc, ◌-◌, ◌≡◌, ◌≤◌, ◌<◌, refl, ap, ◌∙◌, true, false, some, [], ◌++◌, if◌then◌else◌,
  arith, inl, inr, Bool-cases, Option-cases, ==_iff,
}
use effect_rs.Resources.Scopes.{
  marked, last_first, run_with, ScopeInner, Scopes, update, inner_of, close_each, finalize,
  close_with_exit,
}
use effect_rs.Resources.Store.{open_count, get-update_at}
use effect_rs.Resources.Closing.{upgrade-Keeps, Keeps-refl, Keeps-trans}
use effect_rs.Resources.Children.{Closes, close_each-Keeps}
use effect_rs.Resources.Sweeps.{Sweeps-refl}
use effect_rs.Resources.Families.{Finished, Finished-Sweeps, SweepsBelow, Below-Swept}
use effect_rs.Resources.Finishing.{mark-fewer, mark-Keeps, done, finalize-done, finished}

module _ {Exit : Type 0} where
  close-of_run :
      (fuel : ℕ) (exit : Exit) (id : ℕ) (i : ScopeInner) (scopes next : Scopes Exit)
      → inner_of id scopes ≡ some i
      → i.closed ≡ false
      → close_each (close_with_exit fuel exit) i.children (update id marked scopes) ≡ some next
      → close_with_exit (suc fuel) exit id scopes ≡ some (true, finalize exit id next)
  unfolding close_with_exit
  close-of_run fuel exit id i scopes next here is_open run =
      rw (close_with_exit, here, is_open, run) refl

  close_open :
      (fuel n : ℕ) (exit : Exit) (id : ℕ) (i : ScopeInner) (scopes : Scopes Exit)
      → Closes exit n (close_with_exit fuel exit)
      → open_count scopes.inners ≤ suc n
      → inner_of id scopes ≡ some i
      → i.closed ≡ false
      → (after : Scopes Exit) × (close_with_exit (suc fuel) exit id scopes ≡ some (true, after))
        × Finished exit id i scopes after
  unfolding close_with_exit
  close_open fuel n exit id i scopes closes small here is_open =
      let start = update id marked scopes in
      let keeps1 = mark-Keeps id i scopes here is_open in
      let fewer1 = mark-fewer id i scopes here is_open in
      let (next, run, keeps2, kids, inner, swept) =
        close_each-Keeps exit n (close_with_exit fuel exit) i.children start closes
          (omega (arith, fewer1)) in
      let at_start : inner_of id start ≡ some (marked i) =
        get-update_at id id marked scopes.inners i here
        ∙ ap (λ b. some (if b then marked i else i)) ((==_iff id id).1 refl) in
      let at_next = keeps2.shut id (marked i) at_start refl in
      let after = done exit id (marked i) next at_next in
      let keeps12 = Keeps-trans scopes start next keeps1 keeps2 in
      (
        after,
        close-of_run fuel exit id i scopes next here is_open run
            ∙ ap (λ s. some (true, s)) (finalize-done exit id (marked i) next at_next),
        finished exit id i scopes next here is_open keeps12 at_next inner swept
            (λ c m u. kids c m (upgrade-Keeps c scopes start keeps1 u)),
      )

  close-Closes : (fuel n : ℕ) (exit : Exit) → n < fuel → Closes exit n (close_with_exit fuel exit)
  unfolding close_with_exit
  close-Closes zero n exit enough id scopes small = absurd (omega arith)
  close-Closes (suc fuel) n exit enough id scopes small = elim (Option-cases (inner_of id scopes)) [
    | inl e ↦ (
      false,
      scopes,
      rw (close_with_exit, e) refl,
      Keeps-refl scopes,
      λ u. ground (arith, e, u),
      [],
      Sweeps-refl exit scopes,
    )
    | inr (i, e) ↦ elim (Bool-cases i.closed) [
      | inl c ↦ (
        false,
        scopes,
        rw (close_with_exit, e, c) refl,
        Keeps-refl scopes,
        λ u. (i, e, c),
        [],
        Sweeps-refl exit scopes,
      )
      | inr c ↦
          let fewer = mark-fewer id i scopes e c in
          let rest = close-Closes fuel (open_count scopes.inners - 1) exit (omega (arith, fewer)) in
          let (after, run, end) =
            close_open fuel (open_count scopes.inners - 1) exit id i scopes rest (omega arith) e
              c in
          (
            true,
            after,
            run,
            end.keeps,
            λ u. (record i { closed = true; finalizers = []; latch_open = true }, end.left, refl),
            end.inner ++ run_with exit (last_first i.finalizers),
            Finished-Sweeps exit id i scopes after e end c,
          )
    ]
  ]

  -- Closing an open scope, with fuel above the number of open scopes, ends and answers `true`, on
  -- any store, also where scopes own one another in a cycle. The scope is then closed, its latch open
  -- and its finalizers gone, its living children are closed, and the trace has grown by a part
  -- `inner` and then by its own finalizers, from the last to the first. Every other open scope below
  -- it, through living children of open scopes, is closed, and its finalizers have run in `inner`,
  -- from the last to the first without a break. Every other scope is as before or has been closed in
  -- that way; scopes that were closed are as before, and every finalizer is held by a scope or has
  -- run as often in all as before.
  pub close_with_exit-Finished :
      (fuel : ℕ) (exit : Exit) (id : ℕ) (i : ScopeInner) (scopes : Scopes Exit)
      → open_count scopes.inners < fuel
      → inner_of id scopes ≡ some i
      → i.closed ≡ false
      → (after : Scopes Exit) × (close_with_exit fuel exit id scopes ≡ some (true, after))
        × (f : Finished exit id i scopes after) × SweepsBelow exit f.inner id scopes after
  close_with_exit-Finished zero exit id i scopes enough here is_open = absurd (omega arith)
  close_with_exit-Finished (suc fuel) exit id i scopes enough here is_open =
      let fewer = mark-fewer id i scopes here is_open in
      let rest = close-Closes fuel (open_count scopes.inners - 1) exit (omega (arith, fewer)) in
      let (after, run, f) =
        close_open fuel (open_count scopes.inners - 1) exit id i scopes rest (omega arith) here
          is_open in
      (after, run, f, Below-Swept exit id i scopes after here f)
