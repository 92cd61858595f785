-- ===== src/Tests/Schedules.antt =====
-- Schedules and their loops at concrete inputs.
use effect_rs.Prelude.{
  ℕ, ◌+◌, ◌*◌, ◌^◌, min, ◌≡◌, refl, Bool, true, false, none, some, List, [], ◌∷◌, ok, err, arith,
  length, ltb, if◌then◌else◌,
}
use effect_rs.Schedule.Policy.{
  u64_max, ScheduleInput, Schedule, recurs, spaced, exponential, exponential_from, compose, next,
  default_input, continue_after,
}
use effect_rs.Schedule.Exponential.{advance, next-exponential}
use effect_rs.Schedule.Delays.{delays, zip_max, defaults}
use effect_rs.Schedule.Combinators.{zeros, delays-recurs, delays-compose}
use effect_rs.Schedule.Loops.{
  Services, retry_with_clock, retry_with_clock_and_interrupt, repeat_with_clock,
  repeat_with_clock_and_interrupt,
}
use effect_rs.Schedule.Retry.{attempts, retry_along, retry-follows_delays}
use effect_rs.Schedule.Repeat.{repeat_along, repeat-follows_delays}
use effect_rs.Schedule.Interrupt.{interrupt_loops_uncancelled}

-- The world counts the runs; the third run is the first to succeed. A sleep costs 100.
abbrev third_time : Services ℕ ℕ ℕ
third_time = record {
  make = λ w. (if ltb w 2 then err w else ok w, w + 1);
  sleep = λ d w. w;
  attempt_counter = none;
  is_cancelled = λ w. false;
}

abbrev cancelled : Services ℕ ℕ ℕ
cancelled = record third_time { is_cancelled = λ w. true }

retry_succeeds : retry_with_clock 6 third_time (recurs 5) 0 ≡ some (ok 2, 3)
unfolding retry_with_clock next
retry_succeeds = refl

retry_gives_up : retry_with_clock 2 third_time (recurs 1) 0 ≡ some (err 1, 2)
unfolding retry_with_clock next
retry_gives_up = refl

abbrev inputs : List ScheduleInput
inputs = record { attempt = 0 } ∷ record { attempt = 1 } ∷ record { attempt = 9 } ∷ []

exponential_delays : delays inputs (exponential_from 100) ≡ 100 ∷ 200 ∷ 400 ∷ []
unfolding delays next
exponential_delays = refl

few : length (delays (attempts 3 0) (recurs 2)) ≡ 2
unfolding delays attempts next
few = refl

retry-follows_delays_example :
    retry_with_clock 3 third_time (recurs 2) 0
    ≡ some (retry_along third_time (delays (attempts 3 0) (recurs 2)) 0)
retry-follows_delays_example = retry-follows_delays third_time 3 (recurs 2) 0 (omega (arith, few))

repeat-follows_delays_example :
    repeat_with_clock 3 third_time (recurs 2) 2
    ≡ some (repeat_along third_time (delays (attempts 3 0) (recurs 2)) 2)
repeat-follows_delays_example = repeat-follows_delays third_time 3 (recurs 2) 2 (omega (arith, few))

interrupt_loops_uncancelled_example :
    (retry_with_clock_and_interrupt 9 third_time (spaced 10) 0
      ≡ retry_with_clock 9 third_time (spaced 10) 0)
    × (repeat_with_clock_and_interrupt 9 third_time (spaced 10) 0
        ≡ repeat_with_clock 9 third_time (spaced 10) 0)
interrupt_loops_uncancelled_example =
    interrupt_loops_uncancelled third_time (λ w. refl) 9 (spaced 10) 0

next-exponential_example :
    (next (advance 7 (exponential_from 100)) default_input).0
    ≡ some (continue_after (min (100 * 2 ^ 7) u64_max))
next-exponential_example = next-exponential 100 7 default_input (omega arith)

abbrev capped : Schedule
capped = compose (exponential 100 3) (recurs 4)

abbrev below_two : ScheduleInput → Bool
below_two i = ltb i.attempt 2

abbrev later : ScheduleInput → ScheduleInput
later i = record { attempt = i.attempt + 1 }

delays-recurs_example : delays inputs (recurs 2) ≡ zeros (min 2 (length inputs))
delays-recurs_example = delays-recurs 2 inputs

delays-compose_example :
    delays inputs capped
    ≡ zip_max (delays (defaults inputs) (exponential 100 3)) (delays (defaults inputs) (recurs 4))
delays-compose_example = delays-compose inputs (exponential 100 3) (recurs 4)
