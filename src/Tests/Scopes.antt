-- ===== src/Tests/Scopes.antt =====
-- Runs of the scopes.
use effect_rs.Prelude.{ℕ, ◌≡◌, refl, true, false, none, some, [], ◌∷◌, arith}
use effect_rs.Resources.Scopes.{ScopeInner, Scopes, is_closed, close_with_exit}
use effect_rs.Resources.Lifecycle.{close_with_exit-Finished}
use effect_rs.Resources.Families.{Finished, SweepsBelow}

-- Scope 0 owns scope 1, and both hold finalizers.
abbrev parent_inner : ScopeInner
parent_inner = record {
  closed = false;
  latch_open = false;
  parent = none;
  children = 1 ∷ [];
  finalizers = 10 ∷ 11 ∷ [];
  alive = true;
}

abbrev child_inner : ScopeInner
child_inner = record {
  closed = false;
  latch_open = false;
  parent = some 0;
  children = [];
  finalizers = 20 ∷ [];
  alive = true;
}

abbrev family : Scopes ℕ
family = record { inners = parent_inner ∷ child_inner ∷ []; ran = [] }

abbrev after_close : Scopes ℕ
after_close = record {
  inners =
      record parent_inner { closed = true; latch_open = true; finalizers = [] }
      ∷ record child_inner { closed = true; latch_open = true; finalizers = [] }
      ∷ [];
  ran = (20, 7) ∷ (11, 7) ∷ (10, 7) ∷ [];
}

close_family : close_with_exit 3 7 0 family ≡ some (true, after_close)
unfolding close_with_exit
close_family = refl

-- Two scopes that extend one another: the parents never end.
endless_parents :
    let cycle : Scopes ℕ = record {
      inners = record parent_inner { parent = some 1 } ∷ child_inner ∷ [];
      ran = [];
    } in
    is_closed 100 0 cycle ≡ none
unfolding is_closed
endless_parents = refl

close_with_exit-Finished_example :
    (after : Scopes ℕ) × (close_with_exit 3 7 0 family ≡ some (true, after))
    × (f : Finished 7 0 parent_inner family after) × SweepsBelow 7 f.inner 0 family after
close_with_exit-Finished_example =
    close_with_exit-Finished 3 7 0 parent_inner family (omega arith) refl refl
