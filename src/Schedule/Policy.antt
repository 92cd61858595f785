-- ===== src/Schedule/Policy.antt =====
-- `Schedule`, its constructors and `next`. A `Duration` is its number of nanoseconds.
use Prim.Native.Nat.{compare, Ordering}
use effect_rs.Prelude.{
  ℕ, ◌+◌, ◌-◌, ◌*◌, ◌/◌, ◌%◌, ◌^◌, min, Bool, Option, none, some, ◌==◌, if◌then◌else◌,
}

abbrev pub Duration : Type 0
Duration = ℕ

abbrev pub u32_max : ℕ
u32_max = 2 ^ 32 - 1

abbrev pub u64_max : ℕ
u64_max = 2 ^ 64 - 1

abbrev pub u128_max : ℕ
u128_max = 2 ^ 128 - 1

-- `Duration::MAX`: u64::MAX seconds and 999,999,999 nanoseconds.
abbrev pub duration_max : Duration
duration_max = u64_max * 1000000000 + 999999999

pub record ScheduleInput : Type 0 where
  pub attempt : ℕ  -- u64

abbrev pub default_input : ScheduleInput
default_input = record { attempt = 0 }

pub record ScheduleDecision : Type 0 where
  pub delay : Duration

abbrev pub continue_after : Duration → ScheduleDecision
continue_after delay = record { delay = delay }

pub data Schedule : Type 0 where
  recurs : ℕ → Schedule  -- remaining: u64
  spaced : Duration → Schedule
  exponential : Duration → ℕ → Schedule  -- base, step: u32
  compose : Schedule → Schedule → Schedule
  jittered : Schedule → Schedule
  recurs_while : (ScheduleInput → Bool) → Schedule
  recurs_until : (ScheduleInput → Bool) → Schedule
  map_delay : Schedule → (Duration → Duration) → Schedule
  contramap_input : Schedule → (ScheduleInput → ScheduleInput) → Schedule

-- `Schedule::exponential`.
abbrev pub exponential_from : Duration → Schedule
exponential_from base = exponential base 0

-- `Schedule::map`: a map over a map composes the functions.
unfoldable pub map : Schedule → (Duration → Duration) → Schedule
map (map_delay inner existing) f = map_delay inner (λ d. f (existing d))
map other f = map_delay other f

-- `Schedule::contramap`.
unfoldable pub contramap : Schedule → (ScheduleInput → ScheduleInput) → Schedule
contramap (contramap_input inner existing) g = contramap_input inner (λ i. existing (g i))
contramap other g = contramap_input other g

-- `order::max` and `order::clamp` at `order::duration()`.
unfoldable pub order_max : Duration → Duration → Duration
order_max a b = elim (compare a b) [ Ordering.lt ↦ b | _ ↦ a ]

unfoldable pub order_clamp : Duration → Duration → Duration → Duration
order_clamp value minimum maximum = elim (compare value minimum) [
  | Ordering.lt ↦ minimum
  | _ ↦ elim (compare value maximum) [ Ordering.gt ↦ maximum | _ ↦ value ]
]

unfoldable pub saturating_pow : ℕ → ℕ → ℕ
saturating_pow b n = min (b ^ n) u128_max

unfoldable pub saturating_mul : ℕ → ℕ → ℕ
saturating_mul a b = min (a * b) u128_max

-- The delay of an exponential step; `as u64` is the remainder.
unfoldable pub exponential_delay : Duration → ℕ → Duration
unfolding saturating_pow saturating_mul order_clamp
exponential_delay base step =
    let mult = saturating_pow 2 step in
    let nanos = saturating_mul base mult in
    let capped = min nanos u64_max in
    let candidate = capped % 2 ^ 64 in order_clamp candidate 0 duration_max

unfoldable pub jitter_80_120 : Duration → Duration
unfolding saturating_mul
jitter_80_120 d =
    let jittered = saturating_mul d 9 / 10 in let capped = min jittered u64_max in capped % 2 ^ 64

abbrev pub with_delay : (Duration → Duration) → Option ScheduleDecision → Option ScheduleDecision
with_delay f none = none
with_delay f (some decision) = some (continue_after (f decision.delay))

abbrev pub both_decisions :
    Option ScheduleDecision → Option ScheduleDecision → Option ScheduleDecision
both_decisions (some da) (some db) = some (continue_after (order_max da.delay db.delay))
both_decisions (some da) none = none
both_decisions none db = none

-- `Schedule::next`: the decision and the schedule as it is left.
unfoldable pub next : Schedule → ScheduleInput → Option ScheduleDecision × Schedule
unfolding order_max exponential_delay jitter_80_120
next (recurs remaining) input =
    if remaining == 0
    then (none, recurs remaining)
    else (some (continue_after 0), recurs (remaining - 1))
next (spaced interval) input = (some (continue_after interval), spaced interval)
next (exponential base step) input =
    (some (continue_after (exponential_delay base step)), exponential base (min (step + 1) u32_max))
next (compose a b) input =
    let (da, a') = next a default_input in
    let (db, b') = next b default_input in (both_decisions da db, compose a' b')
next (jittered inner) input =
    let (d, inner') = next inner default_input in (with_delay jitter_80_120 d, jittered inner')
next (recurs_while pred) input =
    (if pred input then some (continue_after 0) else none, recurs_while pred)
next (recurs_until pred) input =
    (if pred input then none else some (continue_after 0), recurs_until pred)
next (map_delay inner f) input =
    let (d, inner') = next inner input in (with_delay f d, map_delay inner' f)
next (contramap_input inner g) input =
    let (d, inner') = next inner (g input) in (d, contramap_input inner' g)
