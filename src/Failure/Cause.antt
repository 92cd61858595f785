-- ===== src/Failure/Cause.antt =====
-- The failure algebra, crates/id_effect/src/failure/cause.rs.
pub mod Laws
pub mod Combine
use Prim.Native.String.{String}
use effect_rs.Prelude.{ℕ, ◌+◌, Bool, false, ◌||◌, Option, none, some}

-- `FiberId` is a branded u64.
abbrev pub FiberId : Type 0
FiberId = ℕ

pub data Cause (E : Type 0) : Type 0 where
  fail : E → Cause E
  die : String → Cause E
  interrupt : FiberId → Cause E
  both : Cause E → Cause E → Cause E
  then_ : Cause E → Cause E → Cause E

module _ {E : Type 0} where
  unfoldable pub map_fail : {E2 : Type 0} → (E → E2) → Cause E → Cause E2
  map_fail f (fail error) = fail (f error)
  map_fail f (die message) = die message
  map_fail f (interrupt fiber_id) = interrupt fiber_id
  map_fail f (both left right) = both (map_fail f left) (map_fail f right)
  map_fail f (then_ left right) = then_ (map_fail f left) (map_fail f right)

  -- `from_predicate(e, |_| true)` is `Some(e)`.
  unfoldable pub fail_option : Cause E → Option E
  fail_option (fail e) = some e
  fail_option _ = none

  unfoldable pub contains : (Cause E → Bool) → Cause E → Bool
  contains pred (fail e) = pred (fail e) || false
  contains pred (die m) = pred (die m) || false
  contains pred (interrupt i) = pred (interrupt i) || false
  contains pred (both l r) = pred (both l r) || (contains pred l || contains pred r)
  contains pred (then_ l r) = pred (then_ l r) || (contains pred l || contains pred r)

  -- `impl Semigroup for Cause`.
  unfoldable pub combine : Cause E → Cause E → Cause E
  combine a b = both a b

  unfoldable pub flatten : Cause (Cause E) → Cause E
  flatten (fail inner) = inner
  flatten (die msg) = die msg
  flatten (interrupt id) = interrupt id
  flatten (both l r) = both (flatten l) (flatten r)
  flatten (then_ l r) = then_ (flatten l) (flatten r)
