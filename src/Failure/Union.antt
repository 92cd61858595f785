-- ===== src/Failure/Union.antt =====
-- The binary sum of widened error channels, crates/id_effect/src/failure/union.rs.
use effect_rs.Prelude.{◌≡◌, arith, Result, ok, err}

pub data Or {ℓ} (L R : Type ℓ) : Type ℓ where
  left : L → Or L R
  right : R → Or L R

module _ {ℓ} {L R : Type ℓ} where
  unfoldable pub to_either : Or L R → Result R L
  to_either (left l) = err l
  to_either (right r) = ok r

  unfoldable pub from_either : Result R L → Or L R
  from_either (ok r) = right r
  from_either (err l) = left l

  -- The two conversions between the sum and an `Either` are inverse to one another.
  pub Or-either_inverse :
      (o : Or L R) (e : Result R L)
      → (from_either (to_either o) ≡ o) × (to_either (from_either e) ≡ e)
  unfolding to_either from_either
  Or-either_inverse o e = ground arith

unfoldable pub unify {ℓ} : {E : Type ℓ} → Or E E → E
unify (left e) = e
unify (right e) = e
