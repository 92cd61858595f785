-- ===== src/Resilience/CircuitLaws.antt =====
-- Histories of the circuit breaker.
use mathlib.Core.Path.{subst}
use effect_rs.Prelude.{
  ℕ, ◌+◌, ◌-◌, ◌%◌, ◌^◌, ◌≤◌, ◌<◌, ◌≡◌, refl, sym, Bool, true, false, Option, none, some, Result,
  ok, err, List, [], ◌∷◌, arith, leb, ◌++◌, length, if◌then◌else◌, Run-cases, Option-cases, inl,
  inr,
}
use effect_rs.Failure.Union.{left, right}
use effect_rs.Resilience.CircuitBreaker.{
  CircuitState, closed, open_, half_open, CircuitBreaker, circuit_breaker_error, make, elapsed,
  gate, call, Event, gated, succeeded, failed, apply, apply_all,
}

-- An open breaker knows since when it is open.
abbrev knows_since : CircuitState → Option ℕ → Bool
knows_since open_ none = false
knows_since _ opened_at = true

-- The configuration never changes.
record Inv (threshold reset : ℕ) (b : CircuitBreaker) : Type 0 where
  open_since : knows_since b.state b.opened_at ≡ true
  same_threshold : b.failure_threshold ≡ threshold
  same_reset : b.reset_after ≡ reset

-- Running one effect against an open breaker: until `reset_after` has passed since it opened the
-- effect does not run, and neither the breaker nor the world changes; from then on it runs as the
-- probe, whose success closes the breaker and whose failure opens it anew.
pub call_open :
    {W A E : Type 0} (now : W → ℕ) (effect : W → Result A E × W) (b : CircuitBreaker) (w : W)
    (at : ℕ)
    → b.state ≡ open_
    → b.opened_at ≡ some at
    → call now effect b w ≡ (
        if leb b.reset_after (elapsed (now w) at)
        then elim (effect w).0 [
          | ok a ↦ (ok a, record b { failures = 0; state = closed }, (effect w).1)
          | err e ↦ (
            err (right e),
            record b {
              failures = (b.failures + 1) % 2 ^ 32;
              state = open_;
              opened_at = some (now (effect w).1);
            },
            (effect w).1,
          )
        ]
        else (err (left circuit_breaker_error), b, w))
unfolding call
call_open now effect b w at is_open since = elim (Run-cases (effect w)) [
  | inl (a, w1, e) ↦ ground arith
  | inr (x, w1, e) ↦ ground arith
]

-- Calls whose effects fail at the given times, one after another.
abbrev pub failures_at : List ℕ → List Event
failures_at [] = []
failures_at (t ∷ ts) = gated t ∷ failed t ∷ failures_at ts

fail_below :
    (b : CircuitBreaker) (t : ℕ)
    → b.state ≡ closed
    → b.failures + 1 < b.failure_threshold
    → b.failure_threshold < 2 ^ 32
    → apply (apply b (gated t)) (failed t) ≡ record b { failures = b.failures + 1 }
unfolding apply
fail_below b t c below fits = ground arith

fail_last :
    (b : CircuitBreaker) (t : ℕ)
    → b.state ≡ closed
    → b.failures + 1 ≡ b.failure_threshold
    → b.failure_threshold < 2 ^ 32
    → apply (apply b (gated t)) (failed t)
      ≡ record b { failures = b.failure_threshold; state = open_; opened_at = some t }
unfolding apply
fail_last b t c last fits = ground arith

-- A closed breaker stays closed over consecutive failing calls while their number, with those
-- before, is below the threshold, and the call that reaches the threshold opens it at that time.
pub opens_at_threshold :
    (b : CircuitBreaker) (ts : List ℕ) (t : ℕ)
    → b.state ≡ closed
    → b.failures + length ts + 1 ≡ b.failure_threshold
    → b.failure_threshold < 2 ^ 32
    → ((apply_all b (failures_at ts)).state ≡ closed)
      × (apply_all b (failures_at (ts ++ t ∷ []))
          ≡ record b { failures = b.failure_threshold; state = open_; opened_at = some t })
unfolding apply_all
opens_at_threshold b [] t c total fits = (c, fail_last b t c (omega arith) fits)
opens_at_threshold b (u ∷ ts) t c total fits =
    subst
      (λ (b' : CircuitBreaker).
        ((apply_all b' (failures_at ts)).state ≡ closed)
        × (apply_all b' (failures_at (ts ++ t ∷ []))
            ≡ record b { failures = b.failure_threshold; state = open_; opened_at = some t }))
      (sym (fail_below b u c (omega arith) fits))
      (opens_at_threshold (record b { failures = b.failures + 1 }) ts t c (omega arith) fits)

apply-Inv :
    (threshold reset : ℕ) (b : CircuitBreaker) (e : Event)
    → Inv threshold reset b
    → Inv threshold reset (apply b e)
unfolding apply
apply-Inv threshold reset b (gated now) v = ground arith
apply-Inv threshold reset b succeeded v = ground arith
apply-Inv threshold reset b (failed now) v = ground arith

apply_all-Inv :
    (threshold reset : ℕ) (b : CircuitBreaker) (es : List Event)
    → Inv threshold reset b
    → Inv threshold reset (apply_all b es)
unfolding apply_all
apply_all-Inv threshold reset b [] v = v
apply_all-Inv threshold reset b (e ∷ es) v =
    apply_all-Inv threshold reset (apply b e) es (apply-Inv threshold reset b e v)

gate_of_open :
    (threshold reset now : ℕ) (b : CircuitBreaker)
    → Inv threshold reset b
    → b.state ≡ open_
    → (at : ℕ) × (b.opened_at ≡ some at) × ((gate now b).0 ≡ leb reset (elapsed now at))
unfolding gate
gate_of_open threshold reset now b v is_open = elim (Option-cases b.opened_at) [
  | inl none_ ↦ absurd (ground arith)
  | inr (at, e) ↦ (at, e, ground arith)
]

-- Whatever calls arrive, succeed and fail, in any order, a breaker that is open knows when it was
-- opened, and it admits the next call exactly if `reset_after` has passed since: it is never stuck
-- open.
pub open_recovers :
    (threshold reset now : ℕ) (es : List Event)
    → (apply_all (make threshold reset) es).state ≡ open_
    → (at : ℕ) × ((apply_all (make threshold reset) es).opened_at ≡ some at)
      × ((gate now (apply_all (make threshold reset) es)).0 ≡ leb reset (elapsed now at))
open_recovers threshold reset now es is_open =
    gate_of_open threshold reset now (apply_all (make threshold reset) es)
      (apply_all-Inv threshold reset (make threshold reset) es (unfold make in ground arith))
      is_open

-- Which of the calls that arrive at the given times are admitted, before any of their effects
-- ends.
unfoldable pub admissions : List ℕ → CircuitBreaker → List Bool
admissions [] b = []
admissions (t ∷ ts) b = (gate t b).0 ∷ admissions ts (gate t b).1

abbrev pub all_true : List ℕ → List Bool
all_true [] = []
all_true (t ∷ ts) = true ∷ all_true ts

half_open-admissions :
    (ts : List ℕ) (b : CircuitBreaker) → b.state ≡ half_open → admissions ts b ≡ all_true ts
unfolding admissions gate
half_open-admissions [] b h = refl
half_open-admissions (t ∷ ts) b h = ground (arith, half_open-admissions ts b h)

-- After the cooldown an open breaker admits every call that arrives before the first probe ends,
-- not a single probe.
pub probes_unlimited :
    (b : CircuitBreaker) (at t : ℕ) (ts : List ℕ)
    → b.state ≡ open_
    → b.opened_at ≡ some at
    → b.reset_after ≤ t - at
    → admissions (t ∷ ts) b ≡ all_true (t ∷ ts)
unfolding admissions gate
probes_unlimited b at t ts o since cooled =
    ground (arith, half_open-admissions ts (record b { state = half_open }) refl)
