-- ===== src/Schedule/Delays.antt =====
-- The run of a schedule over a list of inputs: the delays of its decisions, up to the first stop.
use effect_rs.Prelude.{max, Option, none, some, List, [], ◌∷◌}
use effect_rs.Schedule.Policy.{
  Duration, ScheduleInput, ScheduleDecision, Schedule, default_input, next,
}

abbrev pub push_delay : Option ScheduleDecision → List Duration → List Duration
push_delay none rest = []
push_delay (some decision) rest = decision.delay ∷ rest

unfoldable pub delays : List ScheduleInput → Schedule → List Duration
delays [] s = []
delays (input ∷ inputs) s = push_delay (next s input).0 (delays inputs (next s input).1)

-- Pairs of delays, the larger of each, as long as both lists go on.
unfoldable pub zip_max : List Duration → List Duration → List Duration
zip_max [] ys = []
zip_max (x ∷ xs) [] = []
zip_max (x ∷ xs) (y ∷ ys) = max x y ∷ zip_max xs ys

abbrev pub defaults : List ScheduleInput → List ScheduleInput
defaults [] = []
defaults (input ∷ inputs) = default_input ∷ defaults inputs
