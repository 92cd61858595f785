-- ===== src/Graph/Planner.antt =====
-- crates/id_effect_graph/src/topological_sort.rs: an order for nodes that require what others
-- provide.
use effect_rs.Prelude.{
  ℕ, Option, none, some, List, [], ◌∷◌, ◌++◌, Result, ok, err, ◌==◌, if◌then◌else◌,
}
use effect_rs.Graph.Names.{mem, insert, get, put}
use effect_rs.Graph.Dag.{
  GraphError, duplicate_node, conflicting_provider, missing_dependency, sort_explicit,
}

pub record DependencyNode : Type 0 where
  pub id : ℕ
  pub requires : List ℕ
  pub provides : ℕ

-- The loop that collects the ids.
unfoldable pub check_ids : List ℕ → List DependencyNode → Result (List ℕ) GraphError
check_ids ids [] = ok ids
check_ids ids (node ∷ nodes) =
    if mem node.id ids then err (duplicate_node node.id) else check_ids (insert node.id ids) nodes

-- The loop that fills `provider_by_cap`.
unfoldable pub register : List (ℕ × ℕ) → List DependencyNode → Result (List (ℕ × ℕ)) GraphError
register providers [] = ok providers
register providers (node ∷ nodes) = elim (get node.provides providers) [
  | none ↦ register (put node.provides node.id providers) nodes
  | some existing ↦ err (conflicting_provider node.provides existing node.id)
]

-- The inner loop over the requirements of a node.
unfoldable pub require_each :
    List (ℕ × ℕ) → ℕ → List ℕ → List (ℕ × ℕ) → Result (List (ℕ × ℕ)) GraphError
require_each providers id [] edges = ok edges
require_each providers id (required ∷ requires) edges = elim (get required providers) [
  | none ↦ err (missing_dependency id required)
  | some provider ↦
      require_each providers id requires
        (if provider == id then edges else edges ++ (provider, id) ∷ [])
]

unfoldable pub require_all :
    List (ℕ × ℕ) → List DependencyNode → List (ℕ × ℕ) → Result (List (ℕ × ℕ)) GraphError
unfolding require_each
require_all providers [] edges = ok edges
require_all providers (node ∷ nodes) edges =
    elim (require_each providers node.id node.requires edges) [
      | ok edges' ↦ require_all providers nodes edges'
      | err e ↦ err e
    ]

unfoldable pub topological_sort : List DependencyNode → Option (Result (List ℕ) GraphError)
unfolding check_ids register require_all sort_explicit
topological_sort nodes = elim (check_ids [] nodes) [
  | err e ↦ some (err e)
  | ok ids ↦ elim (register [] nodes) [
    | err e ↦ some (err e)
    | ok providers ↦ elim (require_all providers nodes []) [
      | err e ↦ some (err e)
      | ok edges ↦ sort_explicit ids edges
    ]
  ]
]
