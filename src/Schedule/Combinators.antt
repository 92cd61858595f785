-- ===== src/Schedule/Combinators.antt =====
-- What the combinators do to the delays of a schedule.
use mathlib.Core.List
use effect_rs.Prelude.{
  ℕ, zero, suc, ◌≡◌, refl, ap, Bool, true, Option, none, some, List, [], ◌∷◌, arith, length, min,
  max,
}
use effect_rs.Schedule.Policy.{
  Duration, ScheduleInput, ScheduleDecision, Schedule, recurs, spaced, exponential, compose,
  jittered, recurs_while, recurs_until, map_delay, contramap_input, map, contramap, continue_after,
  default_input, order_max, with_delay, both_decisions, next,
}
use effect_rs.Schedule.Delays.{push_delay, delays, zip_max, defaults}

push_delay-with_delay :
    (f : Duration → Duration) (d : Option ScheduleDecision) (rest : List Duration)
    → push_delay (with_delay f d) (List.map f rest) ≡ List.map f (push_delay d rest)
push_delay-with_delay f none rest = refl
push_delay-with_delay f (some d) rest = refl

delays-map_delay :
    (f : Duration → Duration) (inputs : List ScheduleInput) (s : Schedule)
    → delays inputs (map_delay s f) ≡ List.map f (delays inputs s)
unfolding delays next
delays-map_delay f [] s = refl
delays-map_delay f (input ∷ inputs) s =
    rw (delays-map_delay f inputs (next s input).1)
      (push_delay-with_delay f (next s input).0 (delays inputs (next s input).1))

map-compose :
    (f g : Duration → Duration) (xs : List Duration)
    → List.map (λ d. f (g d)) xs ≡ List.map f (List.map g xs)
map-compose f g [] = refl
map-compose f g (x ∷ xs) = ap (λ (ys : List Duration). f (g x) ∷ ys) (map-compose f g xs)

-- `map` applies its function to every delay of the schedule and changes nothing else, also where
-- it is fused with an earlier map.
pub delays-map :
    (f : Duration → Duration) (inputs : List ScheduleInput) (s : Schedule)
    → delays inputs (map s f) ≡ List.map f (delays inputs s)
unfolding map
delays-map f inputs (map_delay inner g) =
    rw (delays-map_delay (λ d. f (g d)) inputs inner, delays-map_delay g inputs inner)
      (map-compose f g (delays inputs inner))
delays-map f inputs (recurs n) = delays-map_delay f inputs (recurs n)
delays-map f inputs (spaced d) = delays-map_delay f inputs (spaced d)
delays-map f inputs (exponential b n) = delays-map_delay f inputs (exponential b n)
delays-map f inputs (compose a b) = delays-map_delay f inputs (compose a b)
delays-map f inputs (jittered s) = delays-map_delay f inputs (jittered s)
delays-map f inputs (recurs_while p) = delays-map_delay f inputs (recurs_while p)
delays-map f inputs (recurs_until p) = delays-map_delay f inputs (recurs_until p)
delays-map f inputs (contramap_input s g) = delays-map_delay f inputs (contramap_input s g)

delays-contramap_input :
    (g : ScheduleInput → ScheduleInput) (inputs : List ScheduleInput) (s : Schedule)
    → delays inputs (contramap_input s g) ≡ delays (List.map g inputs) s
unfolding delays next
delays-contramap_input g [] s = refl
delays-contramap_input g (input ∷ inputs) s =
    ap (push_delay (next s (g input)).0) (delays-contramap_input g inputs (next s (g input)).1)

map-compose_inputs :
    (f g : ScheduleInput → ScheduleInput) (xs : List ScheduleInput)
    → List.map (λ i. f (g i)) xs ≡ List.map f (List.map g xs)
map-compose_inputs f g [] = refl
map-compose_inputs f g (x ∷ xs) =
    ap (λ (ys : List ScheduleInput). f (g x) ∷ ys) (map-compose_inputs f g xs)

-- `contramap` runs the schedule on the mapped inputs, also where it is fused with an earlier
-- contramap: the function given last sees the input first.
pub delays-contramap :
    (g : ScheduleInput → ScheduleInput) (inputs : List ScheduleInput) (s : Schedule)
    → delays inputs (contramap s g) ≡ delays (List.map g inputs) s
unfolding contramap
delays-contramap g inputs (contramap_input inner f) =
    rw
      (
        delays-contramap_input (λ i. f (g i)) inputs inner,
        delays-contramap_input f (List.map g inputs) inner,
      )
      (ap (λ (is : List ScheduleInput). delays is inner) (map-compose_inputs f g inputs))
delays-contramap g inputs (recurs n) = delays-contramap_input g inputs (recurs n)
delays-contramap g inputs (spaced d) = delays-contramap_input g inputs (spaced d)
delays-contramap g inputs (exponential b n) = delays-contramap_input g inputs (exponential b n)
delays-contramap g inputs (compose a b) = delays-contramap_input g inputs (compose a b)
delays-contramap g inputs (jittered s) = delays-contramap_input g inputs (jittered s)
delays-contramap g inputs (recurs_while p) = delays-contramap_input g inputs (recurs_while p)
delays-contramap g inputs (recurs_until p) = delays-contramap_input g inputs (recurs_until p)
delays-contramap g inputs (map_delay s f) = delays-contramap_input g inputs (map_delay s f)

order_max-eq-max : (a b : Duration) → order_max a b ≡ max a b
unfolding order_max
order_max-eq-max a b = ground arith

push_delay-both :
    (a b : Option ScheduleDecision) (xs ys : List Duration)
    → push_delay (both_decisions a b) (zip_max xs ys) ≡ zip_max (push_delay a xs) (push_delay b ys)
unfolding zip_max
push_delay-both (some a) (some b) xs ys =
    ap (λ d. d ∷ zip_max xs ys) (order_max-eq-max a.delay b.delay)
push_delay-both (some a) none xs ys = refl
push_delay-both none b xs ys = refl

-- A composed schedule runs both parts side by side, stops as soon as one of them stops, and waits
-- for the longer of the two delays. Whatever the inputs, both parts are run on the default input.
pub delays-compose :
    (inputs : List ScheduleInput) (a b : Schedule)
    → delays inputs (compose a b)
      ≡ zip_max (delays (defaults inputs) a) (delays (defaults inputs) b)
unfolding delays next zip_max
delays-compose [] a b = refl
delays-compose (input ∷ inputs) a b =
    rw (delays-compose inputs (next a default_input).1 (next b default_input).1)
      (push_delay-both (next a default_input).0 (next b default_input).0 _ _)

-- A predicate that holds at attempt 0 never stops a composed schedule, however the attempts go:
-- the composition makes one decision for every input.
pub compose_recurs_while_endless :
    (pred : ScheduleInput → Bool) (d : Duration) (inputs : List ScheduleInput)
    → pred default_input ≡ true
    → length (delays inputs (compose (recurs_while pred) (spaced d))) ≡ length inputs
unfolding delays next
compose_recurs_while_endless pred d [] h = refl
compose_recurs_while_endless pred d (input ∷ inputs) h =
    rw h (ap suc (compose_recurs_while_endless pred d inputs h))

next-recurs_suc :
    (n : ℕ) (input : ScheduleInput)
    → next (recurs (suc n)) input ≡ (some (continue_after 0), recurs n)
unfolding next
next-recurs_suc n input = ground arith

abbrev pub zeros : ℕ → List Duration
zeros zero = []
zeros (suc n) = 0 ∷ zeros n

-- Run on a list of inputs, `recurs n` makes as many decisions as there are inputs, but n at most,
-- each without delay: with n inputs or more it makes exactly n, and then stops.
pub delays-recurs :
    (n : ℕ) (inputs : List ScheduleInput) → delays inputs (recurs n) ≡ zeros (min n (length inputs))
unfolding delays
delays-recurs n [] = let e : min n 0 ≡ 0 = omega arith in rw e
delays-recurs zero (input ∷ inputs) =
    let e : min 0 (suc (length inputs)) ≡ 0 = omega arith in rw e (unfold next in refl)
delays-recurs (suc n) (input ∷ inputs) =
    let e : min (suc n) (suc (length inputs)) ≡ suc (min n (length inputs)) = omega arith in
    rw (e, next-recurs_suc n input) (ap (λ (ds : List Duration). 0 ∷ ds) (delays-recurs n inputs))
