-- ===== src/Graph/Dag.antt =====
-- crates/id_effect_graph/src/dag.rs and error.rs: explicit graphs, and Kahn's sort.
use effect_rs.Prelude.{
  ℕ, zero, suc, Option, none, some, List, [], ◌∷◌, ◌++◌, Result, ok, err, ◌==◌, length,
  if◌then◌else◌,
}
use effect_rs.Graph.Names.{mem, insert, get, write, constant}

pub data GraphError : Type 0 where
  duplicate_node : ℕ → GraphError
  missing_dependency : (node dependency : ℕ) → GraphError
  conflicting_provider : (capability first second : ℕ) → GraphError
  cycle_detected : List ℕ → GraphError
  unknown_node : ℕ → GraphError

pub record Dag : Type 0 where
  pub nodes : List ℕ
  pub edges : List (ℕ × ℕ)

unfoldable pub new : Dag
new = record { nodes = []; edges = [] }

-- `add_node`, with the graph that it leaves.
unfoldable pub add_node : ℕ → Dag → Result Unit GraphError × Dag
add_node id dag =
    if mem id dag.nodes
    then (err (duplicate_node id), dag)
    else (ok tt, record dag { nodes = insert id dag.nodes })

-- `add_edge`, with the graph that it leaves.
unfoldable pub add_edge : ℕ → ℕ → Dag → Result Unit GraphError × Dag
add_edge dependency dependent dag =
    if mem dependency dag.nodes
    then (if mem dependent dag.nodes
        then (if dependency == dependent
            then (ok tt, dag)
            else (ok tt, record dag { edges = dag.edges ++ (dependency, dependent) ∷ [] }))
        else (err (unknown_node dependent), dag))
    else (err (unknown_node dependency), dag)

unfoldable pub node_count : Dag → ℕ
node_count dag = length dag.nodes

unfoldable pub edge_count : Dag → ℕ
edge_count dag = length dag.edges

pub record Links : Type 0 where
  pub indegree : List (ℕ × ℕ)
  pub adjacency : List (ℕ × List ℕ)

-- The `for` over the edges: `none` is the panic of an `expect`.
unfoldable pub link : List (ℕ × ℕ) → Links → Option Links
link [] links = some links
link ((from, to) ∷ edges) links = elim (get from links.adjacency) [
  | none ↦ none
  | some dependents ↦ elim (get to links.indegree) [
    | none ↦ none
    | some degree ↦ link edges (record {
      indegree = write to (suc degree) links.indegree;
      adjacency = write from (dependents ++ to ∷ []) links.adjacency;
    })
  ]
]

-- The names whose degree is zero, in the map's order.
unfoldable pub ready : List (ℕ × ℕ) → List ℕ
ready [] = []
ready ((id, zero) ∷ rest) = id ∷ ready rest
ready ((id, suc degree) ∷ rest) = ready rest

-- The names whose degree is positive, in the map's order.
unfoldable pub blocked : List (ℕ × ℕ) → List ℕ
blocked [] = []
blocked ((id, zero) ∷ rest) = blocked rest
blocked ((id, suc degree) ∷ rest) = id ∷ blocked rest

-- The `for` over the dependents of a name: `none` is the panic of the `expect`, or of a
-- subtraction below zero.
unfoldable pub release : List ℕ → List (ℕ × ℕ) → List ℕ → Option (List (ℕ × ℕ) × List ℕ)
release [] indegree queue = some (indegree, queue)
release (dependent ∷ dependents) indegree queue = elim (get dependent indegree) [
  | none ↦ none
  | some zero ↦ none
  | some (suc degree) ↦
      release dependents (write dependent degree indegree)
        (if degree == 0 then queue ++ dependent ∷ [] else queue)
]

abbrev pub or_empty : Option (List ℕ) → List ℕ
or_empty none = []
or_empty (some dependents) = dependents

-- The `while` over the queue; also without fuel the answer is `none`.
unfoldable pub visit :
    List (ℕ × List ℕ) → ℕ → List (ℕ × ℕ) → List ℕ → List ℕ → Option (List (ℕ × ℕ) × List ℕ)
unfolding release
visit adjacency fuel indegree [] order = some (indegree, order)
visit adjacency zero indegree (next ∷ queue) order = none
visit adjacency (suc fuel) indegree (next ∷ queue) order =
    elim (release (or_empty (get next adjacency)) indegree queue) [
      | none ↦ none
      | some (indegree', queue') ↦ visit adjacency fuel indegree' queue' (order ++ next ∷ [])
    ]

-- The end of `sort_explicit`.
unfoldable pub conclude : List ℕ → List (ℕ × ℕ) × List ℕ → Result (List ℕ) GraphError
unfolding blocked
conclude nodes (indegree, order) =
    if length order == length nodes then ok order else err (cycle_detected (blocked indegree))

unfoldable pub sort_explicit : List ℕ → List (ℕ × ℕ) → Option (Result (List ℕ) GraphError)
unfolding conclude link visit ready
sort_explicit nodes edges =
    elim (link edges (record { indegree = constant 0 nodes; adjacency = constant [] nodes })) [
      | none ↦ none
      | some links ↦
          elim (visit links.adjacency (length nodes) links.indegree (ready links.indegree) []) [
            | none ↦ none
            | some end ↦ some (conclude nodes end)
          ]
    ]

unfoldable pub sort : Dag → Option (Result (List ℕ) GraphError)
unfolding sort_explicit
sort dag = sort_explicit dag.nodes dag.edges
