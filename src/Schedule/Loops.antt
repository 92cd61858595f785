-- ===== src/Schedule/Loops.antt =====
-- `repeat` and `retry`. A run of the factory's effect, the clock's sleep and the metric change a
-- world `W`, which holds the effect's environment; what they do is not code of this file and
-- comes as a parameter. `none` means that the fuel ran out: the loops need not end.
use effect_rs.Prelude.{
  ℕ, zero, suc, ◌+◌, min, Bool, true, false, Option, none, some, Result, ok, err,
}
use effect_rs.Schedule.Policy.{Duration, Schedule, next, recurs, u64_max}

pub record Services {ℓ} (W A E : Type ℓ) : Type ℓ where
  pub make : W → Result A E × W  -- `make().run(r)`
  pub sleep : Duration → W → W  -- `clock.sleep(delay)`, run
  pub attempt_counter : Option (W → W)  -- the metric's `apply(1)`, run
  pub is_cancelled : W → Bool  -- the token that `check_interrupt` reads

abbrev pub tick {ℓ} : {W : Type ℓ} → Option (W → W) → W → W
tick none w = w
tick (some apply) w = apply w

abbrev pub saturating_succ : ℕ → ℕ
saturating_succ attempt = min (attempt + 1) u64_max

abbrev pub Run {ℓ} : Type ℓ → Type ℓ → Type ℓ → Type ℓ
Run W A E = Option (Result A E × W)

module _ {ℓ} {W A E : Type ℓ} where
  -- The loop of `retry_with_clock`.
  unfoldable pub retry_loop : ℕ → Services W A E → Schedule → ℕ → W → Run W A E
  retry_loop zero s schedule attempt w = none
  retry_loop (suc fuel) s schedule attempt w =
      let (r, w1) = s.make (tick s.attempt_counter w) in
      elim r [
        | ok a ↦ some (ok a, w1)
        | err e ↦
            let (decision, schedule') = next schedule (record { attempt = attempt }) in
            elim decision [
              | none ↦ some (err e, w1)
              | some d ↦ retry_loop fuel s schedule' (saturating_succ attempt) (s.sleep d.delay w1)
            ]
      ]

  unfoldable pub retry_with_clock : ℕ → Services W A E → Schedule → W → Run W A E
  unfolding retry_loop
  retry_with_clock fuel s schedule w = retry_loop fuel s schedule 0 w

  -- The loop of `retry_with_clock_and_interrupt`: the token is read before the schedule.
  unfoldable pub retry_interrupt_loop : ℕ → Services W A E → Schedule → ℕ → W → Run W A E
  retry_interrupt_loop zero s schedule attempt w = none
  retry_interrupt_loop (suc fuel) s schedule attempt w =
      let (r, w1) = s.make (tick s.attempt_counter w) in
      elim r [
        | ok a ↦ some (ok a, w1)
        | err e ↦ elim (s.is_cancelled w1) [
          | true ↦ some (err e, w1)
          | false ↦
              let (decision, schedule') = next schedule (record { attempt = attempt }) in
              elim decision [
                | none ↦ some (err e, w1)
                | some d ↦
                    retry_interrupt_loop fuel s schedule' (saturating_succ attempt)
                      (s.sleep d.delay w1)
              ]
        ]
      ]

  unfoldable pub retry_with_clock_and_interrupt : ℕ → Services W A E → Schedule → W → Run W A E
  unfolding retry_interrupt_loop
  retry_with_clock_and_interrupt fuel s schedule w = retry_interrupt_loop fuel s schedule 0 w

  -- The `while let` of `repeat_with_clock`, with the last value.
  unfoldable pub repeat_loop : ℕ → Services W A E → Schedule → ℕ → A → W → Run W A E
  repeat_loop zero s schedule attempt last w = none
  repeat_loop (suc fuel) s schedule attempt last w =
      let (decision, schedule') = next schedule (record { attempt = attempt }) in
      elim decision [
        | none ↦ some (ok last, w)
        | some d ↦
            let (r, w1) = s.make (tick s.attempt_counter (s.sleep d.delay w)) in
            elim r [
              | ok a ↦ repeat_loop fuel s schedule' (saturating_succ attempt) a w1
              | err e ↦ some (err e, w1)
            ]
      ]

  unfoldable pub repeat_with_clock : ℕ → Services W A E → Schedule → W → Run W A E
  unfolding repeat_loop
  repeat_with_clock fuel s schedule w =
      let (r, w1) = s.make (tick s.attempt_counter w) in
      elim r [ ok a ↦ repeat_loop fuel s schedule 0 a w1 | err e ↦ some (err e, w1) ]

  -- The loop of `repeat_with_clock_and_interrupt`: the token is read after the decision.
  unfoldable pub repeat_interrupt_loop : ℕ → Services W A E → Schedule → ℕ → A → W → Run W A E
  repeat_interrupt_loop zero s schedule attempt last w = none
  repeat_interrupt_loop (suc fuel) s schedule attempt last w =
      let (decision, schedule') = next schedule (record { attempt = attempt }) in
      elim decision [
        | none ↦ some (ok last, w)
        | some d ↦ elim (s.is_cancelled w) [
          | true ↦ some (ok last, w)
          | false ↦
              let (r, w1) = s.make (tick s.attempt_counter (s.sleep d.delay w)) in
              elim r [
                | ok a ↦ repeat_interrupt_loop fuel s schedule' (saturating_succ attempt) a w1
                | err e ↦ some (err e, w1)
              ]
        ]
      ]

  unfoldable pub repeat_with_clock_and_interrupt : ℕ → Services W A E → Schedule → W → Run W A E
  unfolding repeat_interrupt_loop
  repeat_with_clock_and_interrupt fuel s schedule w =
      let (r, w1) = s.make (tick s.attempt_counter w) in
      elim r [ ok a ↦ repeat_interrupt_loop fuel s schedule 0 a w1 | err e ↦ some (err e, w1) ]

  -- `repeat_n`; `s` is the live clock's, with no metric.
  unfoldable pub repeat_n : ℕ → Services W A E → ℕ → W → Run W A E
  unfolding repeat_with_clock
  repeat_n fuel s times w = repeat_with_clock fuel s (recurs times) w
