-- ===== src/Graph/Edits.antt =====
-- The graphs that the edits of crates/id_effect_graph/src/dag.rs reach, and their sort.
use effect_rs.Prelude.{
  ℕ, ◌≡◌, refl, true, false, ◌&&◌, ◌||◌, some, List, [], ◌∷◌, ◌++◌, ok, err, arith, ◌==◌, inl, inr,
  Bool-cases, ◌⊎◌,
}
use effect_rs.Graph.Names.{mem, insert, distinct, mem-insert, distinct-insert}
use effect_rs.Graph.Counting.{closed, has_edge}
use effect_rs.Graph.Dag.{Dag, new, add_node, add_edge, sort, cycle_detected}
use effect_rs.Graph.Order.{IsOrder, IsKnot, sort_explicit-answers}

-- What the edits of an empty graph reach, whether they fail or not.
pub data Reached : Dag → Type 0 where
  empty : Reached new
  node : {dag : Dag} (id : ℕ) → Reached dag → Reached (add_node id dag).1
  edge :
      {dag : Dag} (dependency dependent : ℕ)
      → Reached dag
      → Reached (add_edge dependency dependent dag).1

pub record IsValid (dag : Dag) : Type 0 where
  pub once : distinct dag.nodes ≡ true
  pub ends : closed dag.nodes dag.edges ≡ true
  pub not_itself : (v : ℕ) → has_edge v v dag.edges ≡ false

closed-insert :
    (v : ℕ) (nodes : List ℕ) (edges : List (ℕ × ℕ))
    → closed nodes edges ≡ true
    → closed (insert v nodes) edges ≡ true
closed-insert v nodes [] h = refl
closed-insert v nodes ((a, b) ∷ edges) h =
    ground (arith, closed-insert v nodes edges, mem-insert v a nodes, mem-insert v b nodes)

closed-snoc :
    (nodes : List ℕ) (edges : List (ℕ × ℕ)) (a b : ℕ)
    → closed nodes (edges ++ (a, b) ∷ []) ≡ (closed nodes edges && (mem a nodes && mem b nodes))
closed-snoc nodes [] a b = ground arith
closed-snoc nodes ((c, d) ∷ edges) a b = ground (arith, closed-snoc nodes edges a b)

pub has_edge-snoc :
    (u v : ℕ) (edges : List (ℕ × ℕ)) (a b : ℕ)
    → has_edge u v (edges ++ (a, b) ∷ []) ≡ (has_edge u v edges || (a == u && b == v))
has_edge-snoc u v [] a b = ground arith
has_edge-snoc u v ((c, d) ∷ edges) a b = ground (arith, has_edge-snoc u v edges a b)

add_node-IsValid : (id : ℕ) (dag : Dag) → IsValid dag → IsValid (add_node id dag).1
unfolding add_node
add_node-IsValid id dag h = elim (Bool-cases (mem id dag.nodes)) [
  | inl e ↦ rw e h
  | inr e ↦ rw e (record {
    once = distinct-insert id dag.nodes h.once e;
    ends = closed-insert id dag.nodes dag.edges h.ends;
    not_itself = h.not_itself;
  })
]

add_edge-IsValid : (a b : ℕ) (dag : Dag) → IsValid dag → IsValid (add_edge a b dag).1
unfolding add_edge
add_edge-IsValid a b dag h = record {
  once = ground (arith, h.once);
  ends = ground (arith, h.ends, closed-snoc dag.nodes dag.edges a b);
  not_itself = λ v. ground (arith, h.not_itself v, has_edge-snoc v v dag.edges a b);
}

-- Every graph that edits reach is valid: its nodes are distinct, its edges lead from nodes to
-- nodes, and none leads from a node to itself.
pub Reached-IsValid : (dag : Dag) → Reached dag → IsValid dag
unfolding new
Reached-IsValid _ empty = record { once = refl; ends = refl; not_itself = λ v. refl }
Reached-IsValid _ (node {dag} id r) = add_node-IsValid id dag (Reached-IsValid dag r)
Reached-IsValid _ (edge {dag} a b r) = add_edge-IsValid a b dag (Reached-IsValid dag r)

-- `sort` of a graph that edits reach does not panic and ends: the answer is either an order in
-- which each node stands once and after its dependencies, or a cycle error that lists some nodes
-- each of which depends on a listed one.
pub sort-answers :
    (dag : Dag)
    → Reached dag
    → ((order : List ℕ) × (sort dag ≡ some (ok order)) × IsOrder dag.nodes dag.edges order)
      ⊎ ((knot : List ℕ) × (sort dag ≡ some (err (cycle_detected knot)))
          × IsKnot dag.nodes dag.edges knot)
unfolding sort
sort-answers dag r =
    let valid = Reached-IsValid dag r in
    sort_explicit-answers dag.nodes dag.edges valid.once valid.ends
