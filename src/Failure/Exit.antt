-- ===== src/Failure/Exit.antt =====
-- The terminal outcome of an effect: crates/id_effect/src/failure/exit.rs.
pub mod Laws
use Prim.Native.String.{String}
use effect_rs.Prelude.{Bool, true, false, Option, none, some, Result, ok, err}
use effect_rs.Failure.Cause
use effect_rs.Failure.Cause.{Cause, FiberId, map_fail}
use effect_rs.Failure.Matcher
use effect_rs.Failure.Matcher.{Matcher}

pub data Exit (A E : Type 0) : Type 0 where
  success : A → Exit A E
  failure : Cause E → Exit A E

abbrev pub Either : Type 0 → Type 0 → Type 0
Either R L = Result R L

module _ {A E : Type 0} where
  abbrev pub succeed : A → Exit A E
  succeed value = success value

  abbrev pub fail : E → Exit A E
  fail error = failure (Cause.fail error)

  abbrev pub die : String → Exit A E
  die message = failure (Cause.die message)

  abbrev pub interrupt : FiberId → Exit A E
  interrupt fiber_id = failure (Cause.interrupt fiber_id)

  unfoldable pub map : {B : Type 0} → (A → B) → Exit A E → Exit B E
  map f (success value) = success (f value)
  map f (failure cause) = failure cause

  unfoldable pub map_error : {E2 : Type 0} → (E → E2) → Exit A E → Exit A E2
  map_error f (success value) = success value
  map_error f (failure cause) = failure (map_fail f cause)

  unfoldable pub is_success : Exit A E → Bool
  is_success (success value) = true
  is_success (failure cause) = false

  unfoldable pub is_failure : Exit A E → Bool
  is_failure (success value) = false
  is_failure (failure cause) = true

  -- The handlers of the two arms; `none` is `unreachable!()`.
  unfoldable pub take_success : Exit A E → Option (Either A (Cause E))
  take_success (success value) = some (ok value)
  take_success (failure cause) = none

  unfoldable pub take_failure : Exit A E → Option (Either A (Cause E))
  take_failure (success value) = none
  take_failure (failure cause) = some (err cause)

  unfoldable pub join : Option (Option (Either A (Cause E))) → Option (Either A (Cause E))
  join none = none
  join (some r) = r

  -- `into_result`; `none` is a panic, of the matcher or of an arm.
  unfoldable pub into_result : Exit A E → Option (Either A (Cause E))
  unfolding is_success is_failure take_success take_failure join Matcher.run_exhaustive
  into_result e = join (
      Matcher.run_exhaustive
        (Matcher.when (Matcher.when Matcher.new is_success take_success) is_failure take_failure) e)

  unfoldable pub to_either : Exit A E → Option (Either A (Cause E))
  unfolding into_result
  to_either e = into_result e

  unfoldable pub from_either : Either A (Cause E) → Exit A E
  from_either (ok value) = success value
  from_either (err cause) = failure cause
