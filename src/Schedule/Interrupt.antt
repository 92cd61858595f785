-- ===== src/Schedule/Interrupt.antt =====
-- The loops that read a cancellation token.
use effect_rs.Prelude.{
  ℕ, zero, suc, ◌≡◌, refl, true, false, some, arith, Option-cases, Run-cases, inl, inr,
}
use effect_rs.Schedule.Policy.{Schedule, next}
use effect_rs.Schedule.Loops.{
  Services, tick, saturating_succ, retry_loop, retry_interrupt_loop, retry_with_clock,
  retry_with_clock_and_interrupt, repeat_loop, repeat_interrupt_loop, repeat_with_clock,
  repeat_with_clock_and_interrupt,
}

module _ {ℓ} {W A E : Type ℓ} (s : Services W A E) where
  module _ (quiet : (w : W) → s.is_cancelled w ≡ false) where
    retry_loop_uncancelled :
        (fuel : ℕ) (schedule : Schedule) (attempt : ℕ) (w : W)
        → retry_interrupt_loop fuel s schedule attempt w ≡ retry_loop fuel s schedule attempt w
    unfolding retry_loop retry_interrupt_loop
    retry_loop_uncancelled zero schedule attempt w = refl
    retry_loop_uncancelled (suc fuel) schedule attempt w =
        elim (Run-cases (s.make (tick s.attempt_counter w))) [
          | inl (a, w1, e) ↦ ground arith
          | inr (x, w1, e) ↦ elim (Option-cases (next schedule (record { attempt = attempt })).0) [
            | inl stop ↦ ground (arith, quiet w1)
            | inr (d, go) ↦ ground (
              arith,
              quiet w1,
              retry_loop_uncancelled fuel (next schedule (record { attempt = attempt })).1
                  (saturating_succ attempt) (s.sleep d.delay w1),
            )
          ]
        ]

    repeat_loop_uncancelled :
        (fuel : ℕ) (schedule : Schedule) (attempt : ℕ) (last : A) (w : W)
        → repeat_interrupt_loop fuel s schedule attempt last w
          ≡ repeat_loop fuel s schedule attempt last w
    unfolding repeat_loop repeat_interrupt_loop
    repeat_loop_uncancelled zero schedule attempt last w = refl
    repeat_loop_uncancelled (suc fuel) schedule attempt last w =
        elim (Option-cases (next schedule (record { attempt = attempt })).0) [
          | inl stop ↦ ground arith
          | inr (d, go) ↦ elim (Run-cases (s.make (tick s.attempt_counter (s.sleep d.delay w)))) [
            | inl (a, w1, e) ↦ ground (
              arith,
              quiet w,
              repeat_loop_uncancelled fuel (next schedule (record { attempt = attempt })).1
                  (saturating_succ attempt) a w1,
            )
            | inr (x, w1, e) ↦ ground (arith, quiet w)
          ]
        ]

    -- While the token is never cancelled the interruptible loops are the plain ones, for every
    -- schedule and fuel.
    pub interrupt_loops_uncancelled :
        (fuel : ℕ) (schedule : Schedule) (w : W)
        → (retry_with_clock_and_interrupt fuel s schedule w ≡ retry_with_clock fuel s schedule w)
          × (repeat_with_clock_and_interrupt fuel s schedule w
              ≡ repeat_with_clock fuel s schedule w)
    unfolding retry_with_clock retry_with_clock_and_interrupt repeat_with_clock
        repeat_with_clock_and_interrupt
    interrupt_loops_uncancelled fuel schedule w = (
      retry_loop_uncancelled fuel schedule 0 w,
      elim (Run-cases (s.make (tick s.attempt_counter w))) [
        | inl (a, w1, e) ↦ ground (arith, repeat_loop_uncancelled fuel schedule 0 a w1)
        | inr (x, w1, e) ↦ ground arith
      ],
    )

  -- Where the first run leaves the token cancelled, both loops end with what that run returned, in
  -- the world that it left: no sleep and no second run, whatever the schedule.
  pub interrupt_loops_cancelled :
      (fuel : ℕ) (schedule : Schedule) (w : W)
      → s.is_cancelled (s.make (tick s.attempt_counter w)).1 ≡ true
      → (retry_with_clock_and_interrupt (suc fuel) s schedule w
          ≡ some (s.make (tick s.attempt_counter w)))
        × (repeat_with_clock_and_interrupt (suc fuel) s schedule w
            ≡ some (s.make (tick s.attempt_counter w)))
  unfolding retry_with_clock_and_interrupt retry_interrupt_loop repeat_with_clock_and_interrupt
      repeat_interrupt_loop
  interrupt_loops_cancelled fuel schedule w h =
      elim (Run-cases (s.make (tick s.attempt_counter w))) [
        | inl (a, w1, e) ↦ elim (Option-cases (next schedule (record { attempt = 0 })).0) [
          | inl stop ↦ ground arith
          | inr (d, go) ↦ ground arith
        ]
        | inr (x, w1, e) ↦ ground arith
      ]
