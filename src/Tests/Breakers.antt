-- ===== src/Tests/Breakers.antt =====
-- A breaker that opens after two failures and cools down for 100.
use effect_rs.Prelude.{ℕ, ◌+◌, ◌≡◌, refl, some, [], ◌∷◌, Result, err, arith, leb}
use effect_rs.Failure.Union.{right}
use effect_rs.Resilience.CircuitBreaker.{
  closed, open_, CircuitBreaker, make, elapsed, gate, call, apply_all,
}
use effect_rs.Resilience.CircuitLaws.{call_open, failures_at, opens_at_threshold, open_recovers}

abbrev tripped : CircuitBreaker
tripped = record {
  state = open_;
  failures = 2;
  failure_threshold = 2;
  reset_after = 100;
  opened_at = some 40;
}

abbrev fresh : CircuitBreaker
fresh = record tripped { state = closed; failures = 0 }

-- The world is the time; the effect takes 5 and fails.
abbrev late : ℕ → Result ℕ ℕ × ℕ
late w = (err w, w + 5)

call_open_example :
    call (λ w. w) late tripped 150
    ≡ (err (right 150), record tripped { failures = 3; opened_at = some 155 }, 155)
call_open_example = call_open (λ w. w) late tripped 150 40 refl refl

opens_at_threshold_example :
    ((apply_all fresh (failures_at (7 ∷ []))).state ≡ closed)
    × (apply_all fresh (failures_at (7 ∷ 9 ∷ []))
        ≡ record fresh { failures = 2; state = open_; opened_at = some 9 })
opens_at_threshold_example = opens_at_threshold fresh (7 ∷ []) 9 refl (omega arith) (omega arith)

opened : (apply_all (make 2 100) (failures_at (7 ∷ 9 ∷ []))).state ≡ open_
unfolding apply_all make gate
opened = refl

open_recovers_example :
    (at : ℕ) × ((apply_all (make 2 100) (failures_at (7 ∷ 9 ∷ []))).opened_at ≡ some at)
    × ((gate 109 (apply_all (make 2 100) (failures_at (7 ∷ 9 ∷ [])))).0 ≡ leb 100 (elapsed 109 at))
open_recovers_example = open_recovers 2 100 109 (failures_at (7 ∷ 9 ∷ [])) opened
