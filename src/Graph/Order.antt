-- ===== src/Graph/Order.antt =====
-- What `sort_explicit` answers on a set of nodes and edges between them.
use effect_rs.Prelude.{
  ℕ, zero, suc, ◌≡◌, ◌<◌, refl, ◌∙◌, true, false, ◌&&◌, not, some, List, [], arith, ◌==◌, length,
  ◌-◌, inl, inr, Bool-cases, List-cases, ==_iff, ok, err, ◌⊎◌, ◌↔◌,
}
use effect_rs.Graph.Names.{mem, distinct, keys, constant, keys-constant, get-absent, get-constant}
use effect_rs.Graph.Counting.{has_edge, waits, closed, waits-positive, closed-ends}
use effect_rs.Graph.Positions.{position, length-le, mem-full}
use effect_rs.Graph.Dag.{
  cycle_detected, Links, link, ready, blocked, visit, conclude, sort_explicit,
}
use effect_rs.Graph.Links.{link-Linked, mem-ready, mem-blocked, distinct-ready}
use effect_rs.Graph.Loop.{Sorting, Ordered, visit-Sorting}
use effect_rs.Coordination.Offers.{append_nil}

-- An order of the nodes: each stands in it once, and after what it depends on.
pub record IsOrder (nodes : List ℕ) (edges : List (ℕ × ℕ)) (order : List ℕ) : Type 0 where
  pub once : distinct order ≡ true
  pub all : (v : ℕ) → mem v order ≡ mem v nodes
  pub dependencies_first : Ordered edges order

-- Some nodes, each of which depends on one of them.
pub record IsKnot (nodes : List ℕ) (edges : List (ℕ × ℕ)) (knot : List ℕ) : Type 0 where
  pub some_node : (v : ℕ) × (mem v knot ≡ true)
  pub are_nodes : (v : ℕ) → mem v knot ≡ true → mem v nodes ≡ true
  pub stuck :
      (v : ℕ) → mem v knot ≡ true → (u : ℕ) × (has_edge u v edges ≡ true) × (mem u knot ≡ true)

module _ (nodes : List ℕ) (edges : List (ℕ × ℕ)) where
  start : List ℕ → Links
  start ns = record { indegree = constant 0 ns; adjacency = constant [] ns }

  sort-of_runs :
      (links : Links) (end : List (ℕ × ℕ) × List ℕ)
      → link edges (start nodes) ≡ some links
      → visit links.adjacency (length nodes) links.indegree (ready links.indegree) [] ≡ some end
      → sort_explicit nodes edges ≡ some (conclude nodes end)
  unfolding sort_explicit start
  sort-of_runs links end linking visiting = rw (sort_explicit, linking, visiting) refl

  sort_run :
      distinct nodes ≡ true
      → closed nodes edges ≡ true
      → (indegree : List (ℕ × ℕ)) × (order : List ℕ) × (sort_explicit nodes edges
          ≡ some (conclude nodes (indegree, order)))
        × Sorting nodes edges indegree [] order
  unfolding sort_explicit start
  sort_run d c =
      let (links, linking, linked) =
        link-Linked nodes edges (start nodes) (λ v. 0) (λ v. []) c
          (record {
            degrees = keys-constant {A = ℕ} 0 nodes;
            degree_of = λ v m. ground (arith, get-constant {A = ℕ} 0 v nodes);
            adjacent = keys-constant {A = List ℕ} [] nodes;
            dependents_of = λ v m. ground (arith, get-constant {A = List ℕ} [] v nodes);
          }) in
      let ds : distinct (keys links.indegree) ≡ true = ground (arith, linked.degrees) in
      let ready-known : (v : ℕ) → mem v (ready links.indegree) ≡ true → mem v nodes ≡ true = λ v m.
        elim (Bool-cases (mem v nodes)) [
          | inl e ↦ e
          | inr e ↦
              ground
                (arith, mem-ready links.indegree v ds, get-absent v links.indegree, linked.degrees)
        ] in
      let (indegree, order, run, end) =
        visit-Sorting nodes edges links.adjacency (length nodes) links.indegree
          (ready links.indegree) [] c linked.dependents_of (omega arith)
          (record {
            queued = record {
              degrees = linked.degrees;
              degree_of = λ v m. ground (arith, linked.degree_of v m);
              is_placed =
                  λ v m. ground (arith, mem-ready links.indegree v ds, linked.degree_of v m);
              once = distinct-ready links.indegree ds;
              known = λ v m. ready-known v m;
            };
            ordered = λ u v edge m. ground arith;
          }) in
      (indegree, order, sort-of_runs links (indegree, order) linking run, end)

  conclude-IsOrder :
      (indegree : List (ℕ × ℕ)) (order : List ℕ)
      → length order ≡ length nodes
      → Sorting nodes edges indegree [] order
      → IsOrder nodes edges order
  conclude-IsOrder indegree order e h =
      let once : distinct order ≡ true = ground (arith, h.queued.once, append_nil order) in
      let known : (v : ℕ) → mem v order ≡ true → mem v nodes ≡ true =
        λ v m. ground (arith, h.queued.known v, append_nil order) in
      let full = mem-full order nodes once known (omega arith) in
      record {
        once = once;
        all = λ v. elim (Bool-cases (mem v nodes)) [
          | inl m ↦ ground (arith, full v)
          | inr n ↦ ground (arith, known v)
        ];
        dependencies_first = h.ordered;
      }

  module _ (indegree : List (ℕ × ℕ)) (order : List ℕ) (d : distinct nodes ≡ true)
      (h : Sorting nodes edges indegree [] order) where
    ended : (v : ℕ) → mem v nodes ≡ true → mem v order ≡ (waits order edges v == 0)
    ended v m = ground (arith, h.queued.is_placed v m, append_nil order)

    mem-knot : (v : ℕ) → mem v (blocked indegree) ≡ (mem v nodes && not (mem v order))
    mem-knot v =
        let ds : distinct (keys indegree) ≡ true = ground (arith, h.queued.degrees) in
        elim (Bool-cases (mem v nodes)) [
          | inl m ↦ ground (arith, mem-blocked indegree v ds, h.queued.degree_of v m, ended v m)
          | inr n ↦
              ground (arith, mem-blocked indegree v ds, get-absent v indegree, h.queued.degrees)
        ]

    knot-node : (length order == length nodes) ≡ false → (v : ℕ) × (mem v (blocked indegree) ≡ true)
    knot-node e = elim (List-cases (blocked indegree)) [
      | inl none_left ↦
          let all : (v : ℕ) → mem v nodes ≡ true → mem v order ≡ true =
            λ v m. ground (arith, mem-knot v) in
          let known : (v : ℕ) → mem v order ≡ true → mem v nodes ≡ true =
            λ v m. ground (arith, h.queued.known v, append_nil order) in
          let once : distinct order ≡ true = ground (arith, h.queued.once, append_nil order) in
          absurd (ground (arith, length-le nodes order d all, length-le order nodes once known))
      | inr (v, rest, same) ↦ (v, ground (arith, ==_iff v v))
    ]

    conclude-IsKnot :
        closed nodes edges ≡ true
        → (length order == length nodes) ≡ false
        → IsKnot nodes edges (blocked indegree)
    conclude-IsKnot c e = record {
      some_node = knot-node e;
      are_nodes = λ v m. ground (arith, mem-knot v);
      stuck = λ v m.
          let in_nodes : mem v nodes ≡ true = ground (arith, mem-knot v) in
          let out : mem v order ≡ false = ground (arith, mem-knot v) in
          let waiting : waits order edges v ≡ suc (waits order edges v - 1) =
            ground (arith, ended v in_nodes) in
          let (u, edge, new) = waits-positive order edges v (waits order edges v - 1) waiting in
          let from = closed-ends nodes edges u v c edge in
          (u, edge, ground (arith, mem-knot u, from.0));
    }

  -- `sort_explicit` on a set of nodes and edges between them does not panic and ends: the answer
  -- is either an order in which each node stands once and after its dependencies, or a cycle error
  -- that lists some nodes each of which depends on a listed one.
  pub sort_explicit-answers :
      distinct nodes ≡ true
      → closed nodes edges ≡ true
      → ((order : List ℕ) × (sort_explicit nodes edges ≡ some (ok order))
          × IsOrder nodes edges order)
        ⊎ ((knot : List ℕ) × (sort_explicit nodes edges ≡ some (err (cycle_detected knot)))
            × IsKnot nodes edges knot)
  unfolding conclude
  sort_explicit-answers d c =
      let (indegree, order, run, end) = sort_run d c in
      elim (Bool-cases (length order == length nodes)) [
        | inl e ↦
            inl (order, ground (arith, run), conclude-IsOrder indegree order (ground arith) end)
        | inr e ↦
            inr (blocked indegree, ground (arith, run), conclude-IsKnot indegree order d end c e)
      ]

-- Every edge leads to a higher rank.
abbrev pub Ranks : (ℕ → ℕ) → List (ℕ × ℕ) → Type 0
Ranks rank edges = (u v : ℕ) → has_edge u v edges ≡ true → rank u < rank v

knot-descends :
    (nodes : List ℕ) (edges : List (ℕ × ℕ)) (knot : List ℕ) (rank : ℕ → ℕ)
    → IsKnot nodes edges knot
    → Ranks rank edges
    → (bound v : ℕ) → rank v < bound
    → ¬ (mem v knot ≡ true)
knot-descends nodes edges knot rank k r zero v h m = absurd (omega arith)
knot-descends nodes edges knot rank k r (suc bound) v h m =
    let (u, edge, held) = k.stuck v m in
    let less = r u v edge in
    knot-descends nodes edges knot rank k r bound u (omega (arith, less)) held

-- `sort_explicit` on a set of nodes and edges between them gives an order exactly when the nodes
-- can be ranked such that every edge leads to a higher rank.
pub sort_explicit-ok_iff_ranked :
    (nodes : List ℕ) (edges : List (ℕ × ℕ))
    → distinct nodes ≡ true
    → closed nodes edges ≡ true
    → ((order : List ℕ) × (sort_explicit nodes edges ≡ some (ok order)))
      ↔ ((rank : ℕ → ℕ) × Ranks rank edges)
sort_explicit-ok_iff_ranked nodes edges d c = elim (sort_explicit-answers nodes edges d c) [
  | inl (order, run, is_order) ↦ (
    λ found. (
      λ v. position v order,
      λ u v edge.
          is_order.dependencies_first u v edge
            (is_order.all v ∙ (closed-ends nodes edges u v c edge).1),
    ),
    λ ranked. (order, run),
  )
  | inr (knot, run, is_knot) ↦ (
    λ found. absurd (cc (run, found.1)),
    λ ranked.
        let (v, m) = is_knot.some_node in
        absurd (
          knot-descends nodes edges knot ranked.0 is_knot ranked.1 (suc (ranked.0 v)) v
            (omega arith) m),
  )
]
