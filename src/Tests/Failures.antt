-- ===== src/Tests/Failures.antt =====
-- Causes and exits at concrete inputs.
use effect_rs.Prelude.{ℕ, Bool, false, ◌==◌}
use effect_rs.Failure.Cause.{Cause, fail, die, interrupt, both, then_}
use effect_rs.Failure.Exit.{Exit, failure}

abbrev mixed : Cause ℕ
mixed = both (fail 3) (then_ (die "boom") (interrupt 7))

abbrev is_three : Cause ℕ → Bool
is_three (fail n) = n == 3
is_three c = false

abbrev nested : Cause (Cause (Cause ℕ))
nested = then_ (fail (fail mixed)) (die "late")

abbrev failed : Exit ℕ ℕ
failed = failure mixed
