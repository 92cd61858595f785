-- ===== src/Graph/Links.antt =====
-- The degrees and dependents that `sort_explicit` starts from.
use effect_rs.Prelude.{
  ℕ, zero, suc, ◌+◌, ◌≡◌, refl, ap, ◌∙◌, Bool, true, false, not, Option, none, some, List, [], ◌∷◌,
  ◌++◌, arith, ◌==◌, if◌then◌else◌,
}
use effect_rs.Graph.Names.{mem, get, write, keys, get-write, keys-write, distinct, get-absent}
use effect_rs.Graph.Counting.{waits, targets, closed}
use effect_rs.Graph.Dag.{Links, link, ready, blocked}
use effect_rs.Coordination.Offers.{snoc-append, append_nil}

pub record Linked (nodes : List ℕ) (links : Links) (degree : ℕ → ℕ) (dependents : ℕ → List ℕ)
    : Type 0 where
  pub degrees : keys links.indegree ≡ nodes
  pub degree_of : (v : ℕ) → mem v nodes ≡ true → get v links.indegree ≡ some (degree v)
  pub adjacent : keys links.adjacency ≡ nodes
  pub dependents_of : (v : ℕ) → mem v nodes ≡ true → get v links.adjacency ≡ some (dependents v)

-- The `for` over edges whose ends are nodes does not panic; it counts the edges into each
-- node and lists the edges out of it.
pub link-Linked :
    (nodes : List ℕ) (edges : List (ℕ × ℕ)) (links : Links) (degree : ℕ → ℕ)
    (dependents : ℕ → List ℕ)
    → closed nodes edges ≡ true
    → Linked nodes links degree dependents
    → (end : Links) × (link edges links ≡ some end)
      × Linked nodes end (λ v. degree v + waits [] edges v) (λ v. dependents v ++ targets v edges)
unfolding link
link-Linked nodes [] links degree dependents c h = (
  links,
  refl,
  record {
    degrees = h.degrees;
    degree_of = λ v m. ground (arith, h.degree_of v m);
    adjacent = h.adjacent;
    dependents_of = λ v m. rw (append_nil (dependents v)) (h.dependents_of v m);
  },
)
link-Linked nodes ((a, b) ∷ edges) links degree dependents c h =
    let (source, target) : (mem a nodes ≡ true) × (mem b nodes ≡ true) =
      (ground arith, ground arith) in
    let degree' : ℕ → ℕ = λ v. if b == v then suc (degree v) else degree v in
    let dependents' : ℕ → List ℕ = λ v. if a == v then dependents v ++ b ∷ [] else dependents v in
    let links' : Links = record {
      indegree = write b (suc (degree b)) links.indegree;
      adjacency = write a (dependents a ++ b ∷ []) links.adjacency;
    } in
    let keep : Linked nodes links' degree' dependents' = record {
      degrees = keys-write b (suc (degree b)) links.indegree ∙ h.degrees;
      degree_of = λ v m. ground (
        arith,
        get-write b v (suc (degree b)) links.indegree,
        h.degree_of v m,
        h.degrees,
        λ (e : b ≡ v). ap degree e,
      );
      adjacent = keys-write a (dependents a ++ b ∷ []) links.adjacency ∙ h.adjacent;
      dependents_of = λ v m. ground (
        arith,
        get-write a v (dependents a ++ b ∷ []) links.adjacency,
        h.dependents_of v m,
        h.adjacent,
        λ (e : a ≡ v). ap dependents e,
      );
    } in
    let (end, run, linked) =
      link-Linked nodes edges links' degree' dependents' (ground arith) keep in
    (
      end,
      rw (link, h.dependents_of a source, h.degree_of b target) run,
      record {
        degrees = linked.degrees;
        degree_of = λ v m. ground (arith, linked.degree_of v m);
        adjacent = linked.adjacent;
        dependents_of = λ v m.
            ground
              (arith, linked.dependents_of v m, snoc-append (dependents v) b (targets v edges));
      },
    )

abbrev pub at_zero : Option ℕ → Bool
at_zero none = false
at_zero (some d) = d == 0

abbrev pub positive : Option ℕ → Bool
positive none = false
positive (some d) = not (d == 0)

pub mem-ready :
    (m : List (ℕ × ℕ)) (v : ℕ) → distinct (keys m) ≡ true → mem v (ready m) ≡ at_zero (get v m)
unfolding ready
mem-ready [] v u = refl
mem-ready ((k, zero) ∷ rest) v u = ground (arith, mem-ready rest v, get-absent v rest)
mem-ready ((k, suc j) ∷ rest) v u = ground (arith, mem-ready rest v, get-absent v rest)

pub mem-blocked :
    (m : List (ℕ × ℕ)) (v : ℕ) → distinct (keys m) ≡ true → mem v (blocked m) ≡ positive (get v m)
unfolding blocked
mem-blocked [] v u = refl
mem-blocked ((k, zero) ∷ rest) v u = ground (arith, mem-blocked rest v, get-absent v rest)
mem-blocked ((k, suc j) ∷ rest) v u = ground (arith, mem-blocked rest v, get-absent v rest)

pub distinct-ready : (m : List (ℕ × ℕ)) → distinct (keys m) ≡ true → distinct (ready m) ≡ true
unfolding ready
distinct-ready [] u = refl
distinct-ready ((k, zero) ∷ rest) u =
    ground (arith, distinct-ready rest, mem-ready rest k, get-absent k rest)
distinct-ready ((k, suc j) ∷ rest) u = ground (arith, distinct-ready rest)
