-- ===== src/Failure/Matcher.antt =====
-- The runtime value matcher, crates/id_effect/src/match_.rs: ordered arms, each a predicate with
-- a handler, and an optional default. `none` is a panic.
use effect_rs.Prelude.{
  Bool, Option, none, some, List, [], ◌∷◌, ◌++◌, if◌then◌else◌, Result, ok, err,
}

-- `Arm::When` and `Arm::Tag` both hold a predicate and a handler.
pub data Arm {ℓ} (I A : Type ℓ) : Type ℓ where
  when_arm : (I → Bool) → (I → A) → Arm I A
  tag_arm : (I → Bool) → (I → A) → Arm I A

pub record Matcher {ℓ} (I A : Type ℓ) : Type ℓ where
  pub arms : List (Arm I A)
  pub default : Option (I → A)

module _ {ℓ} {I A : Type ℓ} where
  abbrev pub new : Matcher I A
  new = record { arms = []; default = none }

  abbrev pub when : Matcher I A → (I → Bool) → (I → A) → Matcher I A
  when m pred handler = record m { arms = m.arms ++ when_arm pred handler ∷ [] }

  -- `same` is the comparison of the input's tag with the expected one.
  abbrev pub tag : Matcher I A → (I → Bool) → (I → A) → Matcher I A
  tag m same handler = record m { arms = m.arms ++ tag_arm same handler ∷ [] }

  abbrev pub or_else : Matcher I A → (I → A) → Matcher I A
  or_else m handler = record m { default = some handler }

  unfoldable pub try_arms : List (Arm I A) → I → Result A I
  try_arms [] input = err input
  try_arms (when_arm pred h ∷ arms) input = if pred input then ok (h input) else try_arms arms input
  try_arms (tag_arm pred h ∷ arms) input = if pred input then ok (h input) else try_arms arms input

  unfoldable pub try_match : Matcher I A → I → Result A I
  unfolding try_arms
  try_match m input = try_arms m.arms input

  unfoldable pub run_default : Option (I → A) → Result A I → Option A
  run_default d (ok a) = some a
  run_default none (err input) = none
  run_default (some d) (err input) = some (d input)

  -- `exhaustive` and `run_exhaustive`: the first arm that matches, else the default, else a panic.
  unfoldable pub run_exhaustive : Matcher I A → I → Option A
  unfolding try_match run_default
  run_exhaustive m input = run_default m.default (try_match m input)
