-- ===== src/Graph/Counting.antt =====
-- How many dependencies a node waits for, and the dependents that a node releases.
use effect_rs.Prelude.{
  ℕ, suc, ◌+◌, ◌≡◌, refl, Bool, true, false, ◌&&◌, ◌||◌, not, List, [], ◌∷◌, ◌++◌, arith, ◌==◌,
  if◌then◌else◌, inl, inr, Bool-cases,
}
use effect_rs.Graph.Names.{mem, mem-append}

abbrev pub has_edge : ℕ → ℕ → List (ℕ × ℕ) → Bool
has_edge u v [] = false
has_edge u v ((a, b) ∷ edges) = (a == u && b == v) || has_edge u v edges

-- The edges into `v` whose dependency is not in `done`.
abbrev pub waits : List ℕ → List (ℕ × ℕ) → ℕ → ℕ
waits done [] v = 0
waits done ((a, b) ∷ edges) v = (if b == v && not (mem a done) then 1 else 0) + waits done edges v

-- The dependents of `u`, one for each edge.
abbrev pub targets : ℕ → List (ℕ × ℕ) → List ℕ
targets u [] = []
targets u ((a, b) ∷ edges) = if a == u then b ∷ targets u edges else targets u edges

abbrev pub occurrences : ℕ → List ℕ → ℕ
occurrences v [] = 0
occurrences v (x ∷ xs) = (if x == v then 1 else 0) + occurrences v xs

-- All ends of the edges are nodes.
abbrev pub closed : List ℕ → List (ℕ × ℕ) → Bool
closed nodes [] = true
closed nodes ((a, b) ∷ edges) = (mem a nodes && mem b nodes) && closed nodes edges

abbrev pub all_mem : List ℕ → List ℕ → Bool
all_mem nodes [] = true
all_mem nodes (x ∷ xs) = mem x nodes && all_mem nodes xs

pub waits-push :
    (done : List ℕ) (x : ℕ) (edges : List (ℕ × ℕ)) (v : ℕ)
    → mem x done ≡ false
    → waits done edges v ≡ waits (done ++ x ∷ []) edges v + occurrences v (targets x edges)
waits-push done x [] v h = omega arith
waits-push done x ((a, b) ∷ edges) v h =
    ground (arith, waits-push done x edges v h, mem-append a done (x ∷ []))

pub waits-zero :
    (done : List ℕ) (edges : List (ℕ × ℕ)) (u v : ℕ)
    → waits done edges v ≡ 0
    → has_edge u v edges ≡ true
    → mem u done ≡ true
waits-zero done [] u v h e = ground arith
waits-zero done ((a, b) ∷ edges) u v h e = ground (arith, waits-zero done edges u v)

-- A node that waits has a dependency that is not in `done`.
pub waits-positive :
    (done : List ℕ) (edges : List (ℕ × ℕ)) (v k : ℕ)
    → waits done edges v ≡ suc k
    → (u : ℕ) × (has_edge u v edges ≡ true) × (mem u done ≡ false)
waits-positive done [] v k h = absurd (omega arith)
waits-positive done ((a, b) ∷ edges) v k h = elim (Bool-cases (b == v && not (mem a done))) [
  | inl here ↦ (a, ground arith, ground arith)
  | inr there ↦
      let (u, edge, new) = waits-positive done edges v k (ground arith) in (u, ground arith, new)
]

pub waits-nil : (edges : List (ℕ × ℕ)) (v b : ℕ) → waits [] edges v ≡ 0 → has_edge b v edges ≡ false
waits-nil [] v b h = refl
waits-nil ((a, c) ∷ edges) v b h = ground (arith, waits-nil edges v b)

pub closed-targets :
    (nodes : List ℕ) (edges : List (ℕ × ℕ)) (u : ℕ)
    → closed nodes edges ≡ true
    → all_mem nodes (targets u edges) ≡ true
closed-targets nodes [] u h = refl
closed-targets nodes ((a, b) ∷ edges) u h = ground (arith, closed-targets nodes edges u)

pub closed-ends :
    (nodes : List ℕ) (edges : List (ℕ × ℕ)) (u v : ℕ)
    → closed nodes edges ≡ true
    → has_edge u v edges ≡ true
    → (mem u nodes ≡ true) × (mem v nodes ≡ true)
closed-ends nodes [] u v h e = ground arith
closed-ends nodes ((a, b) ∷ edges) u v h e = ground (arith, closed-ends nodes edges u v)
