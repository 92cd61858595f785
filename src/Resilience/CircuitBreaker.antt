-- ===== src/Resilience/CircuitBreaker.antt =====
-- The circuit breaker: crates/id_effect_resilience/src/circuit_breaker.rs. An instant is a number
-- of nanoseconds; what the protected effect does, and the clock, are parameters. A call is a gate,
-- the effect, and a settlement; other callers of the same breaker run during the effect,
-- and not between the accesses of one gate or of one settlement.
use effect_rs.Prelude.{
  ℕ, ◌+◌, ◌-◌, ◌%◌, ◌^◌, Bool, true, false, Option, none, some, Result, ok, err, List, [], ◌∷◌, leb,
  if◌then◌else◌,
}
use effect_rs.Failure.Union.{Or, left, right}

pub data CircuitState : Type 0 where
  closed open_ half_open : CircuitState

pub data CircuitBreakerError : Type 0 where
  circuit_breaker_error : CircuitBreakerError

pub record CircuitBreaker : Type 0 where
  pub state : CircuitState
  pub failures : ℕ  -- u32
  pub failure_threshold : ℕ  -- u32
  pub reset_after : ℕ
  pub opened_at : Option ℕ

unfoldable pub make : ℕ → ℕ → CircuitBreaker
make failure_threshold reset_after = record {
  state = closed;
  failures = 0;
  failure_threshold = failure_threshold;
  reset_after = reset_after;
  opened_at = none;
}

-- `at.elapsed()`, which is zero where the clock went back.
abbrev pub elapsed : ℕ → ℕ → ℕ
elapsed now at = now - at

unfoldable pub gate_open : ℕ → CircuitBreaker → Option ℕ → Bool × CircuitBreaker
gate_open now b none = (false, b)
gate_open now b (some at) =
    if leb b.reset_after (elapsed now at)
    then (true, record b { state = half_open })
    else (false, b)

unfoldable pub gate_in : CircuitState → ℕ → CircuitBreaker → Bool × CircuitBreaker
unfolding gate_open
gate_in closed now b = (true, b)
gate_in open_ now b = gate_open now b b.opened_at
gate_in half_open now b = (true, b)

-- The first part of `call`: whether the effect runs.
unfoldable pub gate : ℕ → CircuitBreaker → Bool × CircuitBreaker
unfolding gate_in
gate now b = gate_in b.state now b

-- The part after a success.
unfoldable pub settle_ok : CircuitBreaker → CircuitBreaker
settle_ok b = record b { failures = 0; state = closed }

abbrev pub is_half_open : CircuitState → Bool
is_half_open closed = false
is_half_open open_ = false
is_half_open half_open = true

unfoldable pub reopen : ℕ → CircuitBreaker → CircuitBreaker
reopen now b = record b { state = open_; opened_at = some now }

-- The part after a failure; the sum wraps, as in a release build.
unfoldable pub settle_err : ℕ → CircuitBreaker → CircuitBreaker
unfolding reopen
settle_err now b =
    let count = (b.failures + 1) % 2 ^ 32 in
    let b1 = record b { failures = count } in
    if leb b.failure_threshold count
    then reopen now b1
    else if is_half_open b.state
    then reopen now b1
    else b1

abbrev pub CallResult : Type 0 → Type 0 → Type 0 → Type 0
CallResult W A E = Result A (Or CircuitBreakerError E) × CircuitBreaker × W

module _ {W A E : Type 0} (now : W → ℕ) where
  abbrev pub settle : Result A E × W → CircuitBreaker → CallResult W A E
  settle (ok a, w) b = (ok a, settle_ok b, w)
  settle (err e, w) b = (err (right e), settle_err (now w) b, w)

  -- `call`, while no other caller uses the breaker.
  unfoldable pub call : (W → Result A E × W) → CircuitBreaker → W → CallResult W A E
  unfolding gate settle_ok settle_err
  call effect b w =
      let (admitted, b1) = gate (now w) b in
      if admitted then settle (effect w) b1 else (err (left circuit_breaker_error), b1, w)

-- What callers do to a breaker, in the order in which it happens.
pub data Event : Type 0 where
  gated : ℕ → Event  -- a call arrives
  succeeded : Event  -- an admitted call's effect succeeds
  failed : ℕ → Event  -- an admitted call's effect fails

unfoldable pub apply : CircuitBreaker → Event → CircuitBreaker
unfolding gate settle_ok settle_err
apply b (gated now) = (gate now b).1
apply b succeeded = settle_ok b
apply b (failed now) = settle_err now b

unfoldable pub apply_all : CircuitBreaker → List Event → CircuitBreaker
unfolding apply
apply_all b [] = b
apply_all b (e ∷ es) = apply_all (apply b e) es
