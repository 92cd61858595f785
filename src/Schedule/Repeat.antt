-- ===== src/Schedule/Repeat.antt =====
-- `repeat` and the delays of its schedule.
use effect_rs.Prelude.{
  ℕ, zero, suc, ◌<◌, ◌≡◌, ap, ◌∙◌, some, Result, ok, err, List, [], ◌∷◌, arith, length,
  Option-cases, Run-cases, inl, inr,
}
use effect_rs.Schedule.Policy.{Duration, Schedule, recurs, next}
use effect_rs.Schedule.Delays.{delays}
use effect_rs.Schedule.Combinators.{delays-recurs, zeros}
use effect_rs.Schedule.Retry.{attempts, length-attempts, length-zeros}
use effect_rs.Schedule.Loops.{
  Services, tick, saturating_succ, repeat_loop, repeat_with_clock, repeat_n,
}

module _ {ℓ} {W A E : Type ℓ} where
  -- Run the effect once more after each delay; the first failure ends the run.
  unfoldable pub again_along : Services W A E → List Duration → A → W → Result A E × W
  again_along s [] last w = (ok last, w)
  again_along s (d ∷ ds) last w =
      let (r, w1) = s.make (tick s.attempt_counter (s.sleep d w)) in
      elim r [ ok a ↦ again_along s ds a w1 | err e ↦ (err e, w1) ]

  -- The same with the first run, which no delay precedes.
  unfoldable pub repeat_along : Services W A E → List Duration → W → Result A E × W
  unfolding again_along
  repeat_along s ds w =
      let (r, w1) = s.make (tick s.attempt_counter w) in
      elim r [ ok a ↦ again_along s ds a w1 | err e ↦ (err e, w1) ]

module _ {ℓ} {W A E : Type ℓ} (s : Services W A E) where
  repeat_loop-along :
      (fuel : ℕ) (schedule : Schedule) (attempt : ℕ) (last : A) (w : W)
      → length (delays (attempts fuel attempt) schedule) < fuel
      → repeat_loop fuel s schedule attempt last w
        ≡ some (again_along s (delays (attempts fuel attempt) schedule) last w)
  unfolding repeat_loop again_along delays attempts
  repeat_loop-along zero schedule attempt last w h = absurd (omega arith)
  repeat_loop-along (suc fuel) schedule attempt last w h =
      elim (Option-cases (next schedule (record { attempt = attempt })).0) [
        | inl stop ↦ ground arith
        | inr (d, go) ↦ elim (Run-cases (s.make (tick s.attempt_counter (s.sleep d.delay w)))) [
          | inl (a, w1, e) ↦ ground (
            arith,
            repeat_loop-along fuel (next schedule (record { attempt = attempt })).1
                (saturating_succ attempt) a w1,
          )
          | inr (x, w1, e) ↦ ground arith
        ]
      ]

  -- With more fuel than the schedule has decisions on the attempts 0, 1, 2, …, `repeat` ends, and
  -- it does what running along those delays does: one run, and one more after each delay, up to
  -- the first failure; it returns that failure or the last value.
  pub repeat-follows_delays :
      (fuel : ℕ) (schedule : Schedule) (w : W)
      → length (delays (attempts fuel 0) schedule) < fuel
      → repeat_with_clock fuel s schedule w
        ≡ some (repeat_along s (delays (attempts fuel 0) schedule) w)
  unfolding repeat_with_clock repeat_along
  repeat-follows_delays fuel schedule w h = elim (Run-cases (s.make (tick s.attempt_counter w))) [
    | inl (a, w1, e) ↦ ground (arith, repeat_loop-along fuel schedule 0 a w1)
    | inr (x, w1, e) ↦ ground arith
  ]

  -- `repeat_n` with n always ends, after one run and at most n further ones: n + 1 rounds of the
  -- loop are enough.
  pub repeat_n-runs : (n : ℕ) (w : W) → repeat_n (suc n) s n w ≡ some (repeat_along s (zeros n) w)
  unfolding repeat_n
  repeat_n-runs n w =
      let e : delays (attempts (suc n) 0) (recurs n) ≡ zeros n =
        delays-recurs n (attempts (suc n) 0)
        ∙ ap zeros (omega (arith, length-attempts (suc n) 0)) in
      repeat-follows_delays (suc n) (recurs n) w
        (omega (arith, ap (length {A = Duration}) e, length-zeros n))
      ∙ ap (λ (ds : List Duration). some (repeat_along s ds w)) e
