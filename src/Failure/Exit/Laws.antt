-- ===== src/Failure/Exit/Laws.antt =====
-- Conversions and maps of Exit.
use effect_rs.Prelude.{◌≡◌, refl, ap, some, ok, err}
use effect_rs.Failure.Cause.{Cause}
use effect_rs.Failure.Cause.Laws.{map_fail_functor}
use effect_rs.Failure.Exit.{Exit, success, failure, Either, map, map_error, to_either, from_either}

-- Converting an exit never panics, and converting back gives the exit; an `Either` made into an
-- exit converts back to itself.
pub Exit-either_inverse :
    {A E : Type 0} (e : Exit A E) (r : Either A (Cause E))
    → ((s : Either A (Cause E)) × (to_either e ≡ some s) × (from_either s ≡ e))
      × (to_either (from_either r) ≡ some r)
unfolding to_either from_either
Exit-either_inverse (success a) (ok b) = ((ok a, refl, refl), refl)
Exit-either_inverse (success a) (err c) = ((ok a, refl, refl), refl)
Exit-either_inverse (failure c) (ok b) = ((err c, refl, refl), refl)
Exit-either_inverse (failure c) (err d) = ((err c, refl, refl), refl)

-- `map` and `map_error` are functors in their channel, and mapping the value and the error
-- commute.
pub map_bifunctor :
    {A B C E F G : Type 0} (f : A → B) (f' : B → C) (g : E → F) (g' : F → G) (e : Exit A E)
    → (map f' (map f e) ≡ map (λ a. f' (f a)) e)
      × (map_error g' (map_error g e) ≡ map_error (λ x. g' (g x)) e)
      × (map f (map_error g e) ≡ map_error g (map f e))
unfolding map map_error
map_bifunctor f f' g g' (success a) = (refl, refl, refl)
map_bifunctor f f' g g' (failure c) = (refl, ap failure (map_fail_functor g g' c).1, refl)
