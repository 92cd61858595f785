-- ===== src/Schedule/Exponential.antt =====
-- The delays of the exponential back-off.
use native.Mathlib.Nat.{pow-suc, zero-add}
use native.Mathlib.Decide.{dec_le}
use effect_rs.Prelude.{ℕ, zero, suc, ◌+◌, ◌*◌, ◌^◌, ◌≤◌, min, ◌≡◌, ap, ◌∙◌, some, arith}
use effect_rs.Schedule.Policy.{
  u32_max, u64_max, u128_max, exponential, continue_after, default_input, ScheduleInput, Schedule,
  next, exponential_delay, exponential_from,
}

pow_pos : (n : ℕ) → 1 ≤ 2 ^ n
pow_pos zero = omega arith
pow_pos (suc n) = rw pow-suc (omega (arith, pow_pos n))

scaled-le : (b m : ℕ) → 1 ≤ b → m ≤ b * m
scaled-le b m h = grind arith

-- Saturating at 128 bits and then at 64 is saturating at 64.
saturate : (b p : ℕ) → min (min (b * min p u128_max) u128_max) u64_max ≡ min (b * p) u64_max
saturate zero p = omega arith
saturate (suc b) p = elim (dec_le p u128_max) [
  | yes small ↦ let e : min p u128_max ≡ p = omega arith in rw e (omega arith)
  | no large ↦
      let e : min p u128_max ≡ u128_max = omega arith in
      rw e (omega (arith, scaled-le (suc b) p (omega arith)))
]

-- The delay of step n is base · 2ⁿ nanoseconds, cut at 2⁶⁴ - 1.
pub exponential_delay_exact :
    (base step : ℕ) → exponential_delay base step ≡ min (base * 2 ^ step) u64_max
unfolding exponential_delay
exponential_delay_exact base step = ground (arith, saturate base (2 ^ step))

abbrev pub advance : ℕ → Schedule → Schedule
advance zero s = s
advance (suc n) s = advance n (next s default_input).1

advance-exponential :
    (n base step : ℕ)
    → step + n ≤ u32_max
    → advance n (exponential base step) ≡ exponential base (step + n)
unfolding next
advance-exponential zero base step h = ap (exponential base) (omega arith)
advance-exponential (suc n) base step h =
    let e : min (step + 1) u32_max ≡ step + 1 = omega arith in
    rw e (advance-exponential n base (step + 1) (omega arith) ∙ ap (exponential base) (omega arith))

-- The decision number n of an exponential back-off from `base`, for n below 2³², waits
-- min (base · 2ⁿ) (2⁶⁴ - 1) nanoseconds: none of the saturating steps changes it before the cap.
pub next-exponential :
    (base n : ℕ) (input : ScheduleInput)
    → n ≤ u32_max
    → (next (advance n (exponential_from base)) input).0
      ≡ some (continue_after (min (base * 2 ^ n) u64_max))
unfolding next
next-exponential base n input h =
    rw (advance-exponential n base 0 (omega arith), zero-add, exponential_delay_exact)
