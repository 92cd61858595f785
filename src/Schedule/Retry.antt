-- ===== src/Schedule/Retry.antt =====
-- `retry` and the delays of its schedule.
use effect_rs.Prelude.{
  ℕ, zero, suc, ◌+◌, ◌<◌, ◌≡◌, refl, ap, ◌∙◌, min, some, Result, ok, err, List, [], ◌∷◌, arith,
  length, Option-cases, Run-cases, inl, inr,
}
use effect_rs.Schedule.Policy.{Duration, ScheduleInput, Schedule, recurs, next, u64_max}
use effect_rs.Schedule.Delays.{delays}
use effect_rs.Schedule.Combinators.{delays-recurs, zeros}
use effect_rs.Schedule.Loops.{Services, tick, saturating_succ, retry_loop, retry_with_clock}

-- The inputs of a loop: the attempts from `attempt` on, counted in a saturating u64.
unfoldable pub attempts : ℕ → ℕ → List ScheduleInput
attempts zero attempt = []
attempts (suc n) attempt = record { attempt = attempt } ∷ attempts n (min (attempt + 1) u64_max)

pub length-attempts : (n attempt : ℕ) → length (attempts n attempt) ≡ n
unfolding attempts
length-attempts zero attempt = refl
length-attempts (suc n) attempt = ap suc (length-attempts n (min (attempt + 1) u64_max))

module _ {ℓ} {W A E : Type ℓ} where
  -- Run the effect until it succeeds; after a failure wait for the next delay, and after the last
  -- delay give the failure back.
  unfoldable pub retry_along : Services W A E → List Duration → W → Result A E × W
  retry_along s [] w = s.make (tick s.attempt_counter w)
  retry_along s (d ∷ ds) w =
      let (r, w1) = s.make (tick s.attempt_counter w) in
      elim r [ ok a ↦ (ok a, w1) | err e ↦ retry_along s ds (s.sleep d w1) ]

module _ {ℓ} {W A E : Type ℓ} (s : Services W A E) where
  retry_loop-along :
      (fuel : ℕ) (schedule : Schedule) (attempt : ℕ) (w : W)
      → length (delays (attempts fuel attempt) schedule) < fuel
      → retry_loop fuel s schedule attempt w
        ≡ some (retry_along s (delays (attempts fuel attempt) schedule) w)
  unfolding retry_loop retry_along delays attempts
  retry_loop-along zero schedule attempt w h = absurd (omega arith)
  retry_loop-along (suc fuel) schedule attempt w h =
      elim (Option-cases (next schedule (record { attempt = attempt })).0) [
        | inl stop ↦ elim (Run-cases (s.make (tick s.attempt_counter w))) [
          | inl (a, w1, e) ↦ ground arith
          | inr (x, w1, e) ↦ ground arith
        ]
        | inr (d, go) ↦ elim (Run-cases (s.make (tick s.attempt_counter w))) [
          | inl (a, w1, e) ↦ ground arith
          | inr (x, w1, e) ↦ ground (
            arith,
            retry_loop-along fuel (next schedule (record { attempt = attempt })).1
                (saturating_succ attempt) (s.sleep d.delay w1),
          )
        ]
      ]

  -- With more fuel than the schedule has decisions on the attempts 0, 1, 2, …, `retry` ends, and
  -- it does what running along those delays does: it returns the first success, or the failure of
  -- the attempt after the last delay, having slept each delay between two attempts and nothing
  -- else.
  pub retry-follows_delays :
      (fuel : ℕ) (schedule : Schedule) (w : W)
      → length (delays (attempts fuel 0) schedule) < fuel
      → retry_with_clock fuel s schedule w
        ≡ some (retry_along s (delays (attempts fuel 0) schedule) w)
  unfolding retry_with_clock
  retry-follows_delays fuel schedule w h = retry_loop-along fuel schedule 0 w h

pub length-zeros : (n : ℕ) → length (zeros n) ≡ n
length-zeros zero = refl
length-zeros (suc n) = ap suc (length-zeros n)

module _ {ℓ} {W A E : Type ℓ} (s : Services W A E) where
  -- `retry` with `recurs n` always ends, within n + 1 attempts, none of them delayed: n + 1 rounds
  -- of the loop are enough.
  pub retry-recurs :
      (n : ℕ) (w : W) → retry_with_clock (suc n) s (recurs n) w ≡ some (retry_along s (zeros n) w)
  retry-recurs n w =
      let e : delays (attempts (suc n) 0) (recurs n) ≡ zeros n =
        delays-recurs n (attempts (suc n) 0)
        ∙ ap zeros (omega (arith, length-attempts (suc n) 0)) in
      retry-follows_delays s (suc n) (recurs n) w
        (omega (arith, ap (length {A = Duration}) e, length-zeros n))
      ∙ ap (λ (ds : List Duration). some (retry_along s ds w)) e
