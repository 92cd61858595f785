-- ===== src/Graph/Requirements.antt =====
-- What the nodes of a plan require and provide.
use effect_rs.Prelude.{
  ℕ, Bool, true, false, ◌&&◌, ◌||◌, not, Option, none, some, List, [], ◌∷◌, ◌==◌, if◌then◌else◌,
}
use effect_rs.Graph.Names.{mem, get}
use effect_rs.Graph.Planner.{DependencyNode}

abbrev pub ids : List DependencyNode → List ℕ
ids [] = []
ids (node ∷ nodes) = node.id ∷ ids nodes

abbrev pub capabilities : List DependencyNode → List ℕ
capabilities [] = []
capabilities (node ∷ nodes) = node.provides ∷ capabilities nodes

abbrev pub one_if : Bool → ℕ
one_if b = if b then 1 else 0

abbrev pub is_name : ℕ → Option ℕ → Bool
is_name u none = false
is_name u (some v) = u == v

abbrev pub present : Option ℕ → Bool
present none = false
present (some v) = true

abbrev pub or_else : Option ℕ → Option ℕ → Option ℕ
or_else none b = b
or_else (some a) b = some a

-- The id of the first node that provides a capability.
abbrev pub provider_of : List DependencyNode → ℕ → Option ℕ
provider_of [] c = none
provider_of (node ∷ nodes) c = if node.provides == c then some node.id else provider_of nodes c

-- One of the requirements is provided by `u`.
abbrev pub supplied : (ℕ → Option ℕ) → ℕ → List ℕ → Bool
supplied provider u [] = false
supplied provider u (r ∷ rs) = is_name u (provider r) || supplied provider u rs

-- A node `v` requires what another node `u` provides.
abbrev pub depends : (ℕ → Option ℕ) → ℕ → ℕ → List DependencyNode → Bool
depends provider u v [] = false
depends provider u v (node ∷ nodes) =
    (node.id == v && (not (u == v) && supplied provider u node.requires))
    || depends provider u v nodes

-- A node `v` requires the capability `r`.
abbrev pub requires_it : ℕ → ℕ → List DependencyNode → Bool
requires_it v r [] = false
requires_it v r (node ∷ nodes) = (node.id == v && mem r node.requires) || requires_it v r nodes

abbrev pub in_map : List (ℕ × ℕ) → ℕ → Option ℕ
in_map providers c = get c providers
