-- ===== src/Resources/Scopes.antt =====
-- crates/id_effect/src/resource/scope.rs: scopes that own one another, and their finalizers. A
-- scope is the index of its inner record in a store, a finalizer is the number of its cell, and a
-- run of one is an entry of the trace `ran`.
use effect_rs.Prelude.{
  ℕ, zero, suc, Bool, true, false, Option, none, some, List, [], ◌∷◌, ◌++◌, ◌==◌, if◌then◌else◌,
  length, get_elem?, any,
}

pub record ScopeInner : Type 0 where
  pub closed : Bool
  pub latch_open : Bool
  pub parent : Option ℕ
  pub children : List ℕ
  pub finalizers : List ℕ
  -- Some handle keeps it, so that a weak pointer to it can be upgraded.
  pub alive : Bool

-- `Exit` is what the scopes are closed with.
pub record Scopes (Exit : Type 0) : Type 0 where
  pub inners : List ScopeInner
  pub ran : List (ℕ × Exit)

abbrev pub update_at : {A : Type 0} → ℕ → (A → A) → List A → List A
update_at i f [] = []
update_at zero f (x ∷ xs) = f x ∷ xs
update_at (suc i) f (x ∷ xs) = x ∷ update_at i f xs

abbrev pub new_inner : Option ℕ → ScopeInner
new_inner parent = record {
  closed = false;
  latch_open = false;
  parent = parent;
  children = [];
  finalizers = [];
  alive = true;
}

abbrev pub last_first : List ℕ → List ℕ
last_first [] = []
last_first (f ∷ fs) = last_first fs ++ f ∷ []

abbrev pub marked : ScopeInner → ScopeInner
marked i = record i { closed = true }

abbrev pub drained : ScopeInner → ScopeInner
drained i = record i { finalizers = []; latch_open = true }

module _ {Exit : Type 0} where
  abbrev pub inner_of : ℕ → Scopes Exit → Option ScopeInner
  inner_of id scopes = get_elem? scopes.inners id

  abbrev pub update : ℕ → (ScopeInner → ScopeInner) → Scopes Exit → Scopes Exit
  update id f scopes = record scopes { inners = update_at id f scopes.inners }

  unfoldable pub make : Scopes Exit → ℕ × Scopes Exit
  make scopes =
      (length scopes.inners, record scopes { inners = scopes.inners ++ new_inner none ∷ [] })

  -- `Weak::upgrade`
  abbrev pub upgrade : ℕ → Scopes Exit → Bool
  upgrade id scopes = elim (inner_of id scopes) [ none ↦ false | some inner ↦ inner.alive ]

  -- `is_closed` follows the parents; `none` says that the fuel for them ran out.
  unfoldable pub is_closed : ℕ → ℕ → Scopes Exit → Option Bool
  is_closed zero id scopes = none
  is_closed (suc fuel) id scopes = elim (inner_of id scopes) [
    | none ↦ some false
    | some inner ↦ elim inner.closed [
      | true ↦ some true
      | false ↦ elim inner.parent [
        | none ↦ some false
        | some parent ↦ elim (upgrade parent scopes) [
          | true ↦ is_closed fuel parent scopes
          | false ↦ some false
        ]
      ]
    ]
  ]

  -- The `for` over the children that can be upgraded.
  unfoldable pub close_each :
      (ℕ → Scopes Exit → Option (Bool × Scopes Exit)) → List ℕ → Scopes Exit → Option (Scopes Exit)
  close_each close_child [] scopes = some scopes
  close_each close_child (child ∷ children) scopes = elim (upgrade child scopes) [
    | false ↦ close_each close_child children scopes
    | true ↦ elim (close_child child scopes) [
      | none ↦ none
      | some (first, scopes') ↦ close_each close_child children scopes'
    ]
  ]

  abbrev pub run_with : Exit → List ℕ → List (ℕ × Exit)
  run_with exit [] = []
  run_with exit (f ∷ fs) = (f, exit) ∷ run_with exit fs

  -- The finalizers are drained, run from the last to the first, and the latch is opened.
  unfoldable pub finalize : Exit → ℕ → Scopes Exit → Scopes Exit
  finalize exit id scopes = elim (inner_of id scopes) [
    | none ↦ scopes
    | some inner ↦ record {
      inners = update_at id drained scopes.inners;
      ran = scopes.ran ++ run_with exit (last_first inner.finalizers);
    }
  ]

  -- `close_with_exit`; `none` says that the fuel for the descendants ran out.
  unfoldable pub close_with_exit : ℕ → Exit → ℕ → Scopes Exit → Option (Bool × Scopes Exit)
  unfolding close_each finalize
  close_with_exit zero exit id scopes = none
  close_with_exit (suc fuel) exit id scopes = elim (inner_of id scopes) [
    | none ↦ some (false, scopes)
    | some inner ↦ elim inner.closed [
      | true ↦ some (false, scopes)
      | false ↦
          elim (close_each (close_with_exit fuel exit) inner.children (update id marked scopes)) [
            | none ↦ none
            | some scopes' ↦ some (true, finalize exit id scopes')
          ]
    ]
  ]

  -- `fork`, with fuel for the parents and the descendants; `succeed` is `Exit::succeed(())`.
  unfoldable pub fork : ℕ → Exit → ℕ → Scopes Exit → Option (ℕ × Scopes Exit)
  unfolding is_closed close_with_exit
  fork fuel succeed id scopes =
      let child = length scopes.inners in
      let linked : Scopes Exit =
        update id (λ i. record i { children = i.children ++ child ∷ [] })
          (record scopes { inners = scopes.inners ++ new_inner (some id) ∷ [] }) in
      elim (is_closed fuel id linked) [
        | none ↦ none
        | some false ↦ some (child, linked)
        | some true ↦ elim (close_with_exit fuel succeed child linked) [
          | none ↦ none
          | some (first, scopes') ↦ some (child, scopes')
        ]
      ]

  -- `extend`, with fuel for the parents.
  unfoldable pub extend : ℕ → ℕ → ℕ → Scopes Exit → Option (Bool × Scopes Exit)
  unfolding is_closed
  extend fuel id other scopes = elim (is_closed fuel id scopes) [
    | none ↦ none
    | some true ↦ some (false, scopes)
    | some false ↦ elim (is_closed fuel other scopes) [
      | none ↦ none
      | some true ↦ some (false, scopes)
      | some false ↦ some (
        true,
        update id (λ i. record i { children = i.children ++ other ∷ [] })
            (update other (λ i. record i { parent = some id }) scopes),
      )
    ]
  ]

  -- `add_finalizer`, with fuel for the parents. The cell is new, and the test for it is that of a
  -- transaction that is run again.
  unfoldable pub add_finalizer : ℕ → ℕ → ℕ → Scopes Exit → Option (Bool × Scopes Exit)
  unfolding is_closed
  add_finalizer fuel id cell scopes = elim (is_closed fuel id scopes) [
    | none ↦ none
    | some true ↦ some (false, scopes)
    | some false ↦ some (
      true,
      update id
          (λ i.
            if any (λ f. f == cell) i.finalizers
            then i
            else record i { finalizers = i.finalizers ++ cell ∷ [] })
          scopes,
    )
  ]
