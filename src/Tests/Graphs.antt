-- ===== src/Tests/Graphs.antt =====
-- Runs of the graph's sort.
use effect_rs.Prelude.{ℕ, ◌≡◌, refl, some, List, [], ◌∷◌, Result, ok, err, ◌⊎◌, ◌↔◌}
use effect_rs.Graph.Dag.{
  GraphError, Dag, new, add_node, add_edge, sort, sort_explicit, cycle_detected, unknown_node,
}
use effect_rs.Graph.Edits.{Reached, empty, node, edge, sort-answers}
use effect_rs.Graph.Order.{IsOrder, IsKnot, Ranks, sort_explicit-ok_iff_ranked}
use effect_rs.Graph.Planner.{DependencyNode, topological_sort}
use effect_rs.Graph.Plans.{Explains, topological_sort-answers}

-- 2 depends on 1, and 3 on both.
abbrev three : Dag
three = record { nodes = 1 ∷ 2 ∷ 3 ∷ []; edges = (1, 2) ∷ (1, 3) ∷ (2, 3) ∷ [] }

three-Reached : Reached three
unfolding new add_node add_edge
three-Reached = edge 2 3 (edge 1 3 (edge 1 2 (node 2 (node 1 (node 3 empty)))))

three_sorted : sort three ≡ some (ok (1 ∷ 2 ∷ 3 ∷ []))
unfolding sort
three_sorted = refl

cycle_reported :
    sort_explicit (1 ∷ 2 ∷ 3 ∷ []) ((1, 2) ∷ (2, 1) ∷ []) ≡ some (err (cycle_detected (1 ∷ 2 ∷ [])))
unfolding sort_explicit
cycle_reported = refl

edge_to_unknown : (add_edge 1 9 three).0 ≡ err (unknown_node 9)
unfolding add_edge
edge_to_unknown = refl

sort-answers_example :
    ((order : List ℕ) × (sort three ≡ some (ok order)) × IsOrder three.nodes three.edges order)
    ⊎ ((knot : List ℕ) × (sort three ≡ some (err (cycle_detected knot)))
        × IsKnot three.nodes three.edges knot)
sort-answers_example = sort-answers three three-Reached

sort_explicit-ok_iff_ranked_example :
    ((order : List ℕ) × (sort_explicit three.nodes three.edges ≡ some (ok order)))
    ↔ ((rank : ℕ → ℕ) × Ranks rank three.edges)
sort_explicit-ok_iff_ranked_example = sort_explicit-ok_iff_ranked three.nodes three.edges refl refl

-- The database provides 10; the repository requires it and provides 20.
abbrev services : List DependencyNode
services =
    record { id = 2; requires = 10 ∷ []; provides = 20 }
    ∷ record { id = 1; requires = []; provides = 10 }
    ∷ []

services_sorted : topological_sort services ≡ some (ok (1 ∷ 2 ∷ []))
unfolding topological_sort
services_sorted = refl

topological_sort-answers_example :
    (answer : Result (List ℕ) GraphError) × (topological_sort services ≡ some answer)
    × Explains services answer
topological_sort-answers_example = topological_sort-answers services
