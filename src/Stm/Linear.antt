-- ===== src/Stm/Linear.antt =====
-- The transactional structures against sequential specifications.
use effect_rs.Prelude.{ℕ, ◌<◌, ◌≡◌, sym, ◌∙◌, Option, none, some, Result, ok}
use effect_rs.Stm.Heap.{Heap, World, version_mod, turns, pending, quiet}
use effect_rs.Stm.Program.{Stm}
use effect_rs.Stm.Replays.{Replays}
use effect_rs.Stm.Commit.{commit}
use effect_rs.Stm.Serial.{serial_of_Replays}

-- A sequential operation gives a value and the new heap, or blocks.
abbrev pub Spec {ℓ} : Type ℓ → Type ℓ → Type ℓ
Spec V A = Heap V → Option (A × Heap V)

module _ {ℓ} {V A E : Type ℓ} where
  abbrev pub at_once : Option (A × Heap V) → Option (Result A E × World V)
  at_once none = none
  at_once (some (a, h)) = some (ok a, quiet h)

  at_once-injective :
      (o : Option (A × Heap V)) (a : A) (h : Heap V)
      → at_once o ≡ some (ok a, quiet h)
      → o ≡ some (a, h)
  at_once-injective none a h e = cc e
  at_once-injective (some (b, h')) a h e = cc e

module _ {ℓ} {V A : Type ℓ} where
  -- The operation has taken place as the specification says, at one point: on the heap that stands
  -- after some turns of the other threads, whose later turns are still to come in `w'`.
  abbrev pub TookPlace : Spec V A → World V → A → World V → Type ℓ
  TookPlace spec w a w' =
      (k : ℕ) × (w'.others ≡ (turns k w).others) × (spec (turns k w).heap ≡ some (a, w'.heap))

module _ {ℓ} {V A E : Type ℓ} where
  pub linearize :
      (stm : Stm V A E) (spec : Spec V A) (fuel : ℕ) (w : World V) (a : A) (w' : World V)
      → Replays stm
      → ((h : Heap V) → commit 1 stm (quiet h) ≡ at_once (spec h))
      → pending w < version_mod
      → commit fuel stm w ≡ some (ok a, w')
      → TookPlace spec w a w'
  linearize stm spec fuel w a w' r meets small c =
      let (k, left, alone) = serial_of_Replays stm fuel w a w' r small c in
      let point = (turns k w).heap in
      (k, left, at_once-injective (spec point) a w'.heap (sym (meets point) ∙ alone))
