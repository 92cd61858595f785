-- ===== src/Prelude/Outcomes.antt =====
-- Rust's `Result<A, E>`, with the value first.
use mathlib.Core.Path.{◌≡◌, refl}
use mathlib.Core.Logic.{◌⊎◌, inl, inr}

pub data Result {ℓ} (A E : Type ℓ) : Type ℓ where
  ok : A → Result A E
  err : E → Result A E

module _ {ℓ} {A E : Type ℓ} where
  pub Result-cases : (r : Result A E) → ((a : A) × (r ≡ ok a)) ⊎ ((e : E) × (r ≡ err e))
  Result-cases (ok a) = inl (a, refl)
  Result-cases (err e) = inr (e, refl)

-- A result beside the state that it left.
module _ {ℓ} {A E W : Type ℓ} where
  pub Run-cases :
      (p : Result A E × W)
      → ((a : A) × (w : W) × (p ≡ (ok a, w))) ⊎ ((e : E) × (w : W) × (p ≡ (err e, w)))
  Run-cases (ok a, w) = inl (a, w, refl)
  Run-cases (err e, w) = inr (e, w, refl)

module _ {ℓ} {A B E : Type ℓ} where
  infixl 5 ◌>>=◌
  abbrev pub ◌>>=◌ : Result A E → (A → Result B E) → Result B E
  err e >>= next = err e
  ok a >>= next = next a

  -- A chain that gives a value has one for its first step, and goes on from there.
  pub chain_steps :
      (first : Result A E) (next : A → Result B E) {end : B}
      → (first >>= next) ≡ ok end
      → (a : A) × (first ≡ ok a) × (next a ≡ ok end)
  chain_steps first next h = elim (Result-cases first) [
    | inr (e, failed) ↦ absurd (cc (rw (◌>>=◌, failed) at h))
    | inl (a, given) ↦ (a, given, rw (◌>>=◌, given) at h)
  ]
