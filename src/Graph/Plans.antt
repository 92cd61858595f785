-- ===== src/Graph/Plans.antt =====
-- What `topological_sort` of crates/id_effect_graph/src/topological_sort.rs answers.
use effect_rs.Prelude.{
  ℕ, ◌≡◌, ◌≤◌, ◌<◌, refl, sym, ap, ◌∙◌, fun_ext, true, none, some, List, [], ◌∷◌, Result, ok, err,
  arith, inl, inr, Option-cases, ==_iff,
}
use mathlib.Core.Path.{subst}
use effect_rs.Graph.Names.{mem, distinct}
use effect_rs.Graph.Counting.{closed, has_edge, occurrences}
use effect_rs.Graph.Dag.{
  GraphError, duplicate_node, conflicting_provider, missing_dependency, cycle_detected,
  unknown_node,
}
use effect_rs.Graph.Positions.{position}
use effect_rs.Graph.Order.{IsOrder, IsKnot, sort_explicit-answers}
use effect_rs.Graph.Planner.{DependencyNode, topological_sort}
use effect_rs.Graph.Requirements.{
  ids, capabilities, present, provider_of, supplied, depends, requires_it, in_map,
}
use effect_rs.Graph.PlanSteps.{check_ids-answers, register-answers, require_all-answers}

-- The order answered for the nodes: the ids and the capabilities are unique, all requirements are
-- provided, and each id stands in the order once, after the ids it depends on.
pub record IsPlan (nodes : List DependencyNode) (order : List ℕ) : Type 0 where
  pub one_id : (v : ℕ) → occurrences v (ids nodes) ≤ 1
  pub one_provider : (c : ℕ) → occurrences c (capabilities nodes) ≤ 1
  pub met : (v r : ℕ) → requires_it v r nodes ≡ true → present (provider_of nodes r) ≡ true
  pub once : distinct order ≡ true
  pub all : (v : ℕ) → mem v order ≡ mem v (ids nodes)
  pub dependencies_first :
      (u v : ℕ) → depends (provider_of nodes) u v nodes ≡ true → position u order < position v order

-- Some ids, each of which depends on one of them.
pub record IsCyclic (nodes : List DependencyNode) (knot : List ℕ) : Type 0 where
  pub some_node : (v : ℕ) × (mem v knot ≡ true)
  pub are_nodes : (v : ℕ) → mem v knot ≡ true → mem v (ids nodes) ≡ true
  pub stuck :
      (v : ℕ)
      → mem v knot ≡ true
      → (u : ℕ) × (depends (provider_of nodes) u v nodes ≡ true) × (mem u knot ≡ true)

-- What each answer says about the nodes.
abbrev pub Explains : List DependencyNode → Result (List ℕ) GraphError → Type 0
Explains nodes (ok order) = IsPlan nodes order
Explains nodes (err (duplicate_node id)) = 2 ≤ occurrences id (ids nodes)
Explains nodes (err (conflicting_provider c first second)) = 2 ≤ occurrences c (capabilities nodes)
Explains nodes (err (missing_dependency v r)) =
    (requires_it v r nodes ≡ true) × (provider_of nodes r ≡ none)
Explains nodes (err (cycle_detected knot)) = IsCyclic nodes knot
Explains nodes (err (unknown_node id)) = ⊥

provider_of-mem :
    (nodes : List DependencyNode) (c u : ℕ)
    → provider_of nodes c ≡ some u
    → mem u (ids nodes) ≡ true
provider_of-mem [] c u h = ground arith
provider_of-mem (node ∷ nodes) c u h = ground (arith, provider_of-mem nodes c u, ==_iff node.id u)

supplied-mem :
    (all : List DependencyNode) (u : ℕ) (rs : List ℕ)
    → supplied (provider_of all) u rs ≡ true
    → mem u (ids all) ≡ true
supplied-mem all u [] h = ground arith
supplied-mem all u (r ∷ rs) h = elim (Option-cases (provider_of all r)) [
  | inl e ↦ ground (arith, supplied-mem all u rs)
  | inr (v, e) ↦ ground (arith, supplied-mem all u rs, provider_of-mem all r u, ==_iff u v)
]

depends-mem :
    (all : List DependencyNode) (u v : ℕ) (nodes : List DependencyNode)
    → depends (provider_of all) u v nodes ≡ true
    → (mem u (ids all) ≡ true) × (mem v (ids nodes) ≡ true)
depends-mem all u v [] h = ground arith
depends-mem all u v (node ∷ nodes) h =
    ground (arith, depends-mem all u v nodes, supplied-mem all u node.requires)

closed-of :
    (nodes : List ℕ) (edges : List (ℕ × ℕ))
    → ((u v : ℕ) → has_edge u v edges ≡ true → (mem u nodes ≡ true) × (mem v nodes ≡ true))
    → closed nodes edges ≡ true
closed-of nodes [] h = refl
closed-of nodes ((a, b) ∷ edges) h =
    ground
      (arith, h a b, ==_iff a a, ==_iff b b, closed-of nodes edges (λ u v e. h u v (ground arith)))

module _ (nodes : List DependencyNode) (all : List ℕ) (edges : List (ℕ × ℕ))
    (known : (v : ℕ) → mem v all ≡ mem v (ids nodes))
    (linked : (u v : ℕ) → has_edge u v edges ≡ depends (provider_of nodes) u v nodes) where
  edges-closed : closed all edges ≡ true
  edges-closed =
      let ends : (u v : ℕ) → has_edge u v edges ≡ true → (mem u all ≡ true) × (mem v all ≡ true) =
        λ u v e. ground (arith, depends-mem nodes u v nodes, linked u v, known u, known v) in
      closed-of all edges ends

  sorted-IsPlan :
      (order : List ℕ)
      → IsOrder all edges order
      → ((v : ℕ) → occurrences v (ids nodes) ≤ 1)
      → ((c : ℕ) → occurrences c (capabilities nodes) ≤ 1)
      → ((v r : ℕ) → requires_it v r nodes ≡ true → present (provider_of nodes r) ≡ true)
      → IsPlan nodes order
  sorted-IsPlan order is_order one_id one_provider met = record {
    one_id = one_id;
    one_provider = one_provider;
    met = met;
    once = is_order.once;
    all = λ v. is_order.all v ∙ known v;
    dependencies_first = λ u v e.
        is_order.dependencies_first u v (linked u v ∙ e)
          (ground (arith, is_order.all v, known v, depends-mem nodes u v nodes));
  }

  knot-IsCyclic : (knot : List ℕ) → IsKnot all edges knot → IsCyclic nodes knot
  knot-IsCyclic knot is_knot = record {
    some_node = is_knot.some_node;
    are_nodes = λ v m. sym (known v) ∙ is_knot.are_nodes v m;
    stuck = λ v m. let (u, e, held) = is_knot.stuck v m in (u, sym (linked u v) ∙ e, held);
  }

-- `topological_sort` does not panic and ends. Its answer is an order of the nodes, and then the
-- ids and the capabilities are unique, all requirements are provided, and each id stands in the
-- order once and after the ids that it depends on; or it is an error, and then two nodes have the
-- duplicate id, two provide the conflicting capability, no node provides the missing one that the
-- named node requires, or each id of the cycle depends on another listed one.
pub topological_sort-answers :
    (nodes : List DependencyNode)
    → (answer : Result (List ℕ) GraphError) × (topological_sort nodes ≡ some answer)
      × Explains nodes answer
unfolding topological_sort
topological_sort-answers nodes = elim (check_ids-answers [] nodes refl) [
  | inr (id, run, more) ↦
      (err (duplicate_node id), rw (topological_sort, run) refl, omega (arith, more))
  | inl (all, run, once, known, few) ↦ elim (register-answers [] nodes) [
    | inr (c, first, second, run', more) ↦ (
      err (conflicting_provider c first second),
      rw (topological_sort, run, run') refl,
      omega (arith, more),
    )
    | inl (providers, run', found, few') ↦
        let same : in_map providers ≡ provider_of nodes = fun_ext found in
        elim (require_all-answers providers nodes []) [
          | inr (v, r, run'', needed, lacking) ↦ (
            err (missing_dependency v r),
            rw (topological_sort, run, run', run'') refl,
            (needed, subst (λ p. p r ≡ none) same lacking),
          )
          | inl (edges, run'', linked, met) ↦
              let linked' : (u v : ℕ) → has_edge u v edges ≡ depends (provider_of nodes) u v nodes =
                λ u v. linked u v ∙ ap (λ p. depends p u v nodes) same in
              elim (sort_explicit-answers all edges once
                (edges-closed nodes all edges known linked')) [
                  | inl (order, sorted, is_order) ↦ (
                    ok order,
                    rw (topological_sort, run, run', run'') sorted,
                    sorted-IsPlan nodes all edges known linked' order is_order
                        (λ v. ground (arith, few v)) (λ c. ground (arith, few' c))
                        (λ v r m. subst (λ p. present (p r) ≡ true) same (met v r m)),
                  )
                  | inr (knot, sorted, is_knot) ↦ (
                    err (cycle_detected knot),
                    rw (topological_sort, run, run', run'') sorted,
                    knot-IsCyclic nodes all edges known linked' knot is_knot,
                  )
                ]
        ]
  ]
]
