-- ===== src/Graph/PlanSteps.antt =====
-- What each loop of `topological_sort` answers.
use effect_rs.Prelude.{
  ℕ, ◌+◌, ◌≡◌, ◌≤◌, refl, ap, true, ◌&&◌, ◌||◌, not, Option, none, some, List, [], ◌∷◌, ◌++◌, ok,
  err, arith, ◌==◌, inl, inr, Bool-cases, if◌then◌else◌, ◌⊎◌, Option-cases, ==_iff,
}
use mathlib.Core.Path.{subst}
use effect_rs.Graph.Names.{mem, insert, get, put, distinct, mem-insert, distinct-insert, get-put}
use effect_rs.Graph.Counting.{has_edge, occurrences}
use effect_rs.Graph.Dag.{duplicate_node, conflicting_provider, missing_dependency}
use effect_rs.Graph.Edits.{has_edge-snoc}
use effect_rs.Graph.Planner.{DependencyNode, check_ids, register, require_each, require_all}
use effect_rs.Graph.Requirements.{
  ids, capabilities, one_if, present, or_else, provider_of, supplied, depends, requires_it, in_map,
}

pub check_ids-answers :
    (seen : List ℕ) (nodes : List DependencyNode)
    → distinct seen ≡ true
    → ((all : List ℕ) × (check_ids seen nodes ≡ ok all)
        × (distinct all ≡ true)
        × ((v : ℕ) → mem v all ≡ (mem v seen || mem v (ids nodes)))
        × ((v : ℕ) → occurrences v (ids nodes) + one_if (mem v seen) ≤ 1))
      ⊎ ((id : ℕ) × (check_ids seen nodes ≡ err (duplicate_node id))
          × (2 ≤ occurrences id (ids nodes) + one_if (mem id seen)))
unfolding check_ids
check_ids-answers seen [] d = inl (seen, refl, d, λ v. ground arith, λ v. ground arith)
check_ids-answers seen (node ∷ nodes) d = elim (Bool-cases (mem node.id seen)) [
  | inl e ↦ inr (node.id, rw (check_ids, e) refl, ground (arith, e))
  | inr e ↦
      elim (check_ids-answers (insert node.id seen) nodes (distinct-insert node.id seen d e)) [
        | inl (all, run, once, known, few) ↦ inl (
          all,
          rw (check_ids, e) run,
          once,
          λ v. ground (arith, known v, mem-insert node.id v seen),
          λ v. ground (
            arith,
            few v,
            mem-insert node.id v seen,
            λ (same : node.id ≡ v). ap (λ k. mem k seen) same,
          ),
        )
        | inr (id, run, more) ↦
            inr (id, rw (check_ids, e) run, ground (arith, more, mem-insert node.id id seen))
      ]
]

or_else-none : (o : Option ℕ) → o ≡ or_else o none
or_else-none none = refl
or_else-none (some v) = refl

absent :
    (c d : ℕ) (providers : List (ℕ × ℕ))
    → get c providers ≡ none
    → (c == d) ≡ true
    → get d providers ≡ none
absent c d providers e same = subst (λ k. get k providers ≡ none) ((==_iff c d).0 same) e

pub register-answers :
    (providers : List (ℕ × ℕ)) (nodes : List DependencyNode)
    → ((all : List (ℕ × ℕ)) × (register providers nodes ≡ ok all)
        × ((c : ℕ) → get c all ≡ or_else (get c providers) (provider_of nodes c))
        × ((c : ℕ) → occurrences c (capabilities nodes) + one_if (present (get c providers)) ≤ 1))
      ⊎ ((c first second : ℕ) × (register providers nodes
            ≡ err (conflicting_provider c first second))
          × (2 ≤ occurrences c (capabilities nodes) + one_if (present (get c providers))))
unfolding register
register-answers providers [] =
    inl (providers, refl, λ c. or_else-none (get c providers), λ c. ground arith)
register-answers providers (node ∷ nodes) = elim (Option-cases (get node.provides providers)) [
  | inr (first, e) ↦ inr (
    node.provides,
    first,
    node.id,
    rw (register, e) refl,
    ground (arith, e, ==_iff node.provides node.provides),
  )
  | inl e ↦ elim (register-answers (put node.provides node.id providers) nodes) [
    | inl (all, run, known, few) ↦ inl (
      all,
      rw (register, e) run,
      λ c. ground (
        arith,
        known c,
        get-put node.provides c node.id providers,
        absent node.provides c providers e,
      ),
      λ c. ground (
        arith,
        few c,
        get-put node.provides c node.id providers,
        absent node.provides c providers e,
      ),
    )
    | inr (c, first, second, run, more) ↦ inr (
      c,
      first,
      second,
      rw (register, e) run,
      ground (
        arith,
        more,
        get-put node.provides c node.id providers,
        absent node.provides c providers e,
      ),
    )
  ]
]

pub require_each-answers :
    (providers : List (ℕ × ℕ)) (id : ℕ) (requires : List ℕ) (edges : List (ℕ × ℕ))
    → ((all : List (ℕ × ℕ)) × (require_each providers id requires edges ≡ ok all)
        × ((u v : ℕ)
            → has_edge u v all ≡ (
                has_edge u v edges
                || (id == v && (not (u == v) && supplied (in_map providers) u requires))))
        × ((r : ℕ) → mem r requires ≡ true → present (in_map providers r) ≡ true))
      ⊎ ((r : ℕ) × (require_each providers id requires edges ≡ err (missing_dependency id r))
          × (mem r requires ≡ true)
          × (in_map providers r ≡ none))
unfolding require_each
require_each-answers providers id [] edges =
    inl (edges, refl, λ u v. ground arith, λ r m. ground arith)
require_each-answers providers id (r ∷ rs) edges = elim (Option-cases (get r providers)) [
  | inl e ↦ inr (r, rw (require_each, e) refl, ground (arith, ==_iff r r), e)
  | inr (p, e) ↦
      let edges' = if p == id then edges else edges ++ (p, id) ∷ [] in
      elim (require_each-answers providers id rs edges') [
        | inl (all, run, same, met) ↦ inl (
          all,
          rw (require_each, e) run,
          λ u v. ground (arith, same u v, has_edge-snoc u v edges p id),
          λ c m. ground (arith, met c, e, λ (k : r ≡ c). ap (λ d. get d providers) k),
        )
        | inr (c, run, m, lacking) ↦ inr (c, rw (require_each, e) run, ground (arith, m), lacking)
      ]
]

pub require_all-answers :
    (providers : List (ℕ × ℕ)) (nodes : List DependencyNode) (edges : List (ℕ × ℕ))
    → ((all : List (ℕ × ℕ)) × (require_all providers nodes edges ≡ ok all)
        × ((u v : ℕ)
            → has_edge u v all ≡ (has_edge u v edges || depends (in_map providers) u v nodes))
        × ((v r : ℕ) → requires_it v r nodes ≡ true → present (in_map providers r) ≡ true))
      ⊎ ((v r : ℕ) × (require_all providers nodes edges ≡ err (missing_dependency v r))
          × (requires_it v r nodes ≡ true)
          × (in_map providers r ≡ none))
unfolding require_all
require_all-answers providers [] edges =
    inl (edges, refl, λ u v. ground arith, λ v r m. ground arith)
require_all-answers providers (node ∷ nodes) edges =
    elim (require_each-answers providers node.id node.requires edges) [
      | inr (r, run, m, lacking) ↦ inr (
        node.id,
        r,
        rw (require_all, run) refl,
        ground (arith, m, ==_iff node.id node.id),
        lacking,
      )
      | inl (some_edges, run, same, met) ↦ elim (require_all-answers providers nodes some_edges) [
        | inl (all, rest, others, met') ↦ inl (
          all,
          rw (require_all, run) rest,
          λ u v. ground (arith, others u v, same u v),
          λ v r m. ground (arith, met r, met' v r),
        )
        | inr (v, r, rest, m, lacking) ↦
            inr (v, r, rw (require_all, run) rest, ground (arith, m), lacking)
      ]
    ]
