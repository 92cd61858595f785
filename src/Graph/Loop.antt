-- ===== src/Graph/Loop.antt =====
-- The invariant of the `while` in `sort_explicit`, and that the loop ends without a panic.
use effect_rs.Prelude.{
  ℕ, zero, suc, ◌+◌, ◌≡◌, ◌≤◌, ◌<◌, refl, sym, ap, ◌∙◌, fun_ext, true, false, some, List, [], ◌∷◌,
  ◌++◌, arith, ◌==◌, if◌then◌else◌, length, length-append, inl, inr, Bool-cases, ==_iff,
}
use effect_rs.Graph.Names.{
  mem, get, write, keys, mem-append, get-write, keys-write, distinct, distinct-snoc,
}
use effect_rs.Graph.Counting.{
  waits, targets, closed, occurrences, all_mem, closed-targets, waits-push, has_edge, waits-zero,
}
use effect_rs.Graph.Positions.{
  position, position-lt, mem-of-position, position-le, position-snoc, length-le,
}
use effect_rs.Graph.Dag.{release, visit, or_empty}
use effect_rs.Coordination.Offers.{snoc-append}
use mathlib.Core.Path.{subst}

append_assoc : (xs ys zs : List ℕ) → (xs ++ ys) ++ zs ≡ xs ++ (ys ++ zs)
append_assoc [] ys zs = refl
append_assoc (x ∷ xs) ys zs = ap (λ l. x ∷ l) (append_assoc xs ys zs)

-- The degrees of the nodes, and the names that the order or the queue holds: those of degree zero.
pub record Queued (nodes : List ℕ) (degree : ℕ → ℕ) (indegree : List (ℕ × ℕ)) (placed : List ℕ)
    : Type 0 where
  pub degrees : keys indegree ≡ nodes
  pub degree_of : (v : ℕ) → mem v nodes ≡ true → get v indegree ≡ some (degree v)
  pub is_placed : (v : ℕ) → mem v nodes ≡ true → mem v placed ≡ (degree v == 0)
  pub once : distinct placed ≡ true
  pub known : (v : ℕ) → mem v placed ≡ true → mem v nodes ≡ true

module _ (nodes : List ℕ) where
  Queued-write :
      (degree : ℕ → ℕ) (x : ℕ) (xs : List ℕ) (indegree : List (ℕ × ℕ)) (placed : List ℕ)
      → mem x nodes ≡ true
      → Queued nodes (λ v. degree v + occurrences v (x ∷ xs)) indegree placed
      → Queued nodes
          (λ v. degree v + occurrences v xs)
          (write x (degree x + occurrences x xs) indegree)
          (if degree x + occurrences x xs == 0 then placed ++ x ∷ [] else placed)
  Queued-write degree x xs indegree placed m h =
      let d = degree x + occurrences x xs in
      let same : (v : ℕ) → (x == v) ≡ true → degree v + occurrences v xs ≡ d =
        λ v e. ap (λ k. degree k + occurrences k xs) (sym ((==_iff x v).0 e)) in
      let fresh : mem x placed ≡ false = ground (arith, h.is_placed x m) in
      record {
        degrees = keys-write x d indegree ∙ h.degrees;
        degree_of =
            λ v n. ground (arith, get-write x v d indegree, h.degree_of v n, h.degrees, same v);
        is_placed =
            λ v n. ground (arith, h.is_placed v n, same v, mem-append v placed (x ∷ []), fresh);
        once = ground (arith, h.once, distinct-snoc placed x, fresh);
        known = λ v n. ground (arith, h.known v, mem-append v placed (x ∷ []));
      }

  release_one :
      (degree : ℕ → ℕ) (x : ℕ) (xs : List ℕ) (indegree : List (ℕ × ℕ)) (order queue : List ℕ)
      → mem x nodes ≡ true
      → Queued nodes (λ v. degree v + occurrences v (x ∷ xs)) indegree (order ++ queue)
      → Queued nodes
          (λ v. degree v + occurrences v xs)
          (write x (degree x + occurrences x xs) indegree)
          (order ++ (if degree x + occurrences x xs == 0 then queue ++ x ∷ [] else queue))
  release_one degree x xs indegree order queue m h =
      subst (Queued nodes _ _) (ground (arith, append_assoc order queue (x ∷ [])))
        (Queued-write degree x xs indegree (order ++ queue) m h)

  release-Queued :
      (degree : ℕ → ℕ) (xs : List ℕ) (indegree : List (ℕ × ℕ)) (order queue : List ℕ)
      → all_mem nodes xs ≡ true
      → Queued nodes (λ v. degree v + occurrences v xs) indegree (order ++ queue)
      → (indegree' : List (ℕ × ℕ)) × (queue' : List ℕ) × (release xs indegree queue
          ≡ some (indegree', queue'))
        × Queued nodes degree indegree' (order ++ queue')
  unfolding release
  release-Queued degree [] indegree order queue m h = (
    indegree,
    queue,
    refl,
    subst (λ d. Queued nodes d indegree (order ++ queue)) (fun_ext (λ v. omega arith)) h,
  )
  release-Queued degree (x ∷ xs) indegree order queue m h =
      let here : mem x nodes ≡ true = ground arith in
      let next = release_one degree x xs indegree order queue here h in
      let (indegree', queue', run, end) = release-Queued degree xs _ order _ (ground arith) next in
      let known : get x indegree ≡ some (suc (degree x + occurrences x xs)) =
        ground (arith, h.degree_of x here) in
      (indegree', queue', rw (release, known) run, end)

distinct-middle :
    (xs : List ℕ) (v : ℕ) (ys : List ℕ) → distinct (xs ++ v ∷ ys) ≡ true → mem v xs ≡ false
distinct-middle [] v ys h = refl
distinct-middle (x ∷ xs) v ys h =
    ground (arith, distinct-middle xs v ys, mem-append x xs (v ∷ ys), ==_iff x v, ==_iff v x)

-- In the order, a dependency stands before what depends on it.
abbrev pub Ordered : List (ℕ × ℕ) → List ℕ → Type 0
Ordered edges order =
    (u v : ℕ) → has_edge u v edges ≡ true → mem v order ≡ true → position u order < position v order

Ordered-snoc :
    (edges : List (ℕ × ℕ)) (order : List ℕ) (next : ℕ)
    → waits order edges next ≡ 0
    → mem next order ≡ false
    → Ordered edges order
    → Ordered edges (order ++ next ∷ [])
Ordered-snoc edges order next free fresh h u v edge m = elim (Bool-cases (next == v)) [
  | inl e ↦
      let here : next ≡ v = (==_iff next v).0 e in
      let before =
        waits-zero order edges u next free
          (subst (λ k. has_edge u k edges ≡ true) (sym here) edge) in
      let new : mem v order ≡ false = subst (λ k. mem k order ≡ false) here fresh in
      ground
        (arith, position-snoc u order next, position-snoc v order next, position-lt u order before)
  | inr e ↦
      let old : mem v order ≡ true = ground (arith, mem-append v order (next ∷ [])) in
      let less = h u v edge old in
      let before = mem-of-position u order (omega (arith, less, position-le v order)) in
      ground (arith, position-snoc u order next, position-snoc v order next)
]

module _ (nodes : List ℕ) (edges : List (ℕ × ℕ)) where
  pub record Sorting (indegree : List (ℕ × ℕ)) (queue order : List ℕ) : Type 0 where
    pub queued : Queued nodes (waits order edges) indegree (order ++ queue)
    pub ordered : Ordered edges order

  -- With fuel for all nodes, the loop of `sort_explicit` ends without a panic.
  pub visit-Sorting :
      (adjacency : List (ℕ × List ℕ)) (fuel : ℕ) (indegree : List (ℕ × ℕ)) (queue order : List ℕ)
      → closed nodes edges ≡ true
      → ((v : ℕ) → mem v nodes ≡ true → get v adjacency ≡ some (targets v edges))
      → length nodes ≤ fuel + length order
      → Sorting indegree queue order
      → (indegree' : List (ℕ × ℕ)) × (order' : List ℕ) × (visit adjacency fuel indegree queue order
          ≡ some (indegree', order'))
        × Sorting indegree' [] order'
  unfolding visit
  visit-Sorting adjacency fuel indegree [] order c adjacent f h = (indegree, order, refl, h)
  visit-Sorting adjacency zero indegree (next ∷ queue) order c adjacent f h =
      let few = length-le (order ++ next ∷ queue) nodes h.queued.once h.queued.known in
      absurd (omega (arith, few, length-append order (next ∷ queue)))
  visit-Sorting adjacency (suc fuel) indegree (next ∷ queue) order c adjacent f h =
      let head : mem next (order ++ next ∷ queue) ≡ true =
        ground (arith, mem-append next order (next ∷ queue)) in
      let here = h.queued.known next head in
      let free : waits order edges next ≡ 0 = ground (arith, h.queued.is_placed next here) in
      let fresh : mem next order ≡ false =
        ground (arith, distinct-middle order next queue h.queued.once) in
      let order' = order ++ next ∷ [] in
      let wait : waits order edges
          ≡ (λ v. waits order' edges v + occurrences v (targets next edges)) =
        fun_ext (λ v. waits-push order next edges v fresh) in
      let now : Queued nodes (λ v. waits order' edges v + occurrences v (targets next edges))
          indegree (order' ++ queue) =
        subst (λ d. Queued nodes d indegree (order' ++ queue)) wait
          (subst (Queued nodes (waits order edges) indegree) (sym (snoc-append order next queue))
            h.queued) in
      let (indegree', queue', run, after) =
        release-Queued nodes (waits order' edges) (targets next edges) indegree order' queue
          (closed-targets nodes edges next c) now in
      let (indegree'', order'', rest, end) =
        visit-Sorting adjacency fuel indegree' queue' order' c adjacent
          (omega (arith, length-append order (next ∷ [])))
          (record {
            queued = after;
            ordered = Ordered-snoc edges order next free fresh h.ordered;
          }) in
      (indegree'', order'', rw (visit, adjacent next here, or_empty, run) rest, end)
