-- ===== src/Resources/Families.antt =====
-- What the close of a scope leaves of it and of the scopes below it.
use effect_rs.Prelude.{
  ℕ, ◌≡◌, refl, sym, ap, ◌∙◌, true, false, some, List, [], ◌++◌, ◌==◌, ◌⊎◌, inl, inr, Bool-cases,
  ==_iff, arith,
}
use mathlib.Core.Path.{subst, subst₂}
use effect_rs.Resources.Scopes.{ScopeInner, Scopes, inner_of, upgrade, last_first, run_with}
use effect_rs.Resources.Closing.{Keeps, IsClosedAt, append_assoc, named}
use effect_rs.Resources.Sweeps.{ended, Swept, Sweeps, Within-left, Within-right}
use effect_rs.Coordination.Offers.{append_nil}

module _ {Exit : Type 0} where
  -- A scope below another is reached from it through living children of open scopes.
  pub data Below (scopes : Scopes Exit) (id : ℕ) : ℕ → Type 0 where
    direct :
        {i : ScopeInner} {c : ℕ}
        → inner_of id scopes ≡ some i
        → named c i.children ≡ true
        → upgrade c scopes ≡ true
        → Below scopes id c
    deeper :
        {j c : ℕ} {k : ScopeInner}
        → Below scopes id j
        → inner_of j scopes ≡ some k
        → k.closed ≡ false
        → named c k.children ≡ true
        → upgrade c scopes ≡ true
        → Below scopes id c

  -- What a close of the open scope `id` leaves: the scope is closed, its latch is open, its
  -- finalizers are gone and its living children are closed. The trace grows by `inner` and then by
  -- the runs of its own finalizers, from the last to the first. Every other scope is as before, or
  -- was open and has been swept: it is closed, its finalizers have run in `inner`, and its living
  -- children are closed.
  pub record Finished (exit : Exit) (id : ℕ) (i : ScopeInner) (before after : Scopes Exit)
      : Type 0 where
    pub keeps : Keeps before after
    pub left : inner_of id after ≡ some (ended i)
    pub children_closed :
        (c : ℕ) → named c i.children ≡ true → upgrade c before ≡ true → IsClosedAt c after
    pub inner : List (ℕ × Exit)
    pub own_last : after.ran ≡ (before.ran ++ inner) ++ run_with exit (last_first i.finalizers)
    pub others :
        (j : ℕ) (k : ScopeInner)
        → inner_of j before ≡ some k
        → (id == j) ≡ false
        → (inner_of j after ≡ some k) ⊎ Swept exit inner before after j k

  -- Every other open scope below `id` has been swept, in `new`.
  abbrev pub SweepsBelow : Exit → List (ℕ × Exit) → ℕ → Scopes Exit → Scopes Exit → Type 0
  SweepsBelow exit new id before after =
      (j : ℕ) (k : ScopeInner)
      → Below before id j
      → inner_of j before ≡ some k
      → k.closed ≡ false
      → (id == j) ≡ false
      → Swept exit new before after j k

  module _ (exit : Exit) (id : ℕ) (i : ScopeInner) (before after : Scopes Exit)
      (here : inner_of id before ≡ some i) (f : Finished exit id i before after) where
    same_inner :
        (j : ℕ) (k l : ScopeInner) (scopes : Scopes Exit)
        → inner_of j scopes ≡ some k
        → inner_of j scopes ≡ some l
        → k ≡ l
    same_inner j k l scopes e e' = cc (e, e')

    changed :
        (j : ℕ) (k : ScopeInner)
        → inner_of j before ≡ some k
        → k.closed ≡ false
        → (id == j) ≡ false
        → IsClosedAt j after
        → Swept exit f.inner before after j k
    changed j k e was_open other (l, e', shut) = elim (f.others j k e other) [
      | inl same ↦ absurd (
          ground (
            arith,
            was_open,
            shut,
            ap (λ (z : ScopeInner). z.closed) (same_inner j k l after same e'),
          ))
      | inr swept ↦ swept
    ]

    kids_of_id :
        (j c : ℕ) (k : ScopeInner)
        → (id == j) ≡ true
        → inner_of j before ≡ some k
        → named c k.children ≡ true
        → upgrade c before ≡ true
        → IsClosedAt c after
    kids_of_id j c k same e m u =
        let at_id : inner_of id before ≡ some k =
          subst (λ n. inner_of n before ≡ some k) (sym ((==_iff id j).0 same)) e in
        let same_scope = same_inner id k i before at_id here in
        f.children_closed c (subst (λ (z : ScopeInner). named c z.children ≡ true) same_scope m) u

    Below-IsClosedAt : (j : ℕ) → Below before id j → IsClosedAt j after
    Below-IsClosedAt c (direct {i = k} e m u) = kids_of_id id c k ((==_iff id id).1 refl) e m u
    Below-IsClosedAt c (deeper {j = j} {k = k} b e was_open m u) = elim (Bool-cases (id == j)) [
      | inl same ↦ kids_of_id j c k same e m u
      | inr other ↦
          let (o, end, run, kids) = changed j k e was_open other (Below-IsClosedAt j b) in
          kids c m u
    ]

    -- A close sweeps every open scope below the one that is closed.
    pub Below-Swept : SweepsBelow exit f.inner id before after
    Below-Swept j k b e was_open other = changed j k e was_open other (Below-IsClosedAt j b)

    own_Swept :
        i.closed ≡ false
        → Swept exit (f.inner ++ run_with exit (last_first i.finalizers)) before after id i
    own_Swept was_open =
        let own = run_with exit (last_first i.finalizers) in
        (
          was_open,
          f.left,
          Within-left f.inner own own ([], [], sym (append_nil own)),
          f.children_closed,
        )

    pub Finished-Sweeps :
        i.closed ≡ false
        → Sweeps exit (f.inner ++ run_with exit (last_first i.finalizers)) before after
    Finished-Sweeps was_open =
        let own = run_with exit (last_first i.finalizers) in
        (
          f.own_last ∙ append_assoc before.ran f.inner own,
          λ j k e. elim (Bool-cases (id == j)) [
            | inl same ↦
                let k_is_i =
                  same_inner j k i before e
                    (subst (λ n. inner_of n before ≡ some i) ((==_iff id j).0 same) here) in
                inr (
                  subst₂ (Swept exit (f.inner ++ own) before after) ((==_iff id j).0 same)
                    (sym k_is_i) (own_Swept was_open))
            | inr other ↦ elim (f.others j k e other) [
              | inl stays ↦ inl stays
              | inr (o, end, run, kids) ↦ inr (o, end, Within-right f.inner own _ run, kids)
            ]
          ],
        )
