-- ===== src/Failure/Cause/Laws.antt =====
-- `map_fail`, `flatten` and `contains` of Cause.
use effect_rs.Prelude.{Bool, ◌≡◌, refl, List, [], ◌∷◌, ◌++◌, any, any-append}
use mathlib.Core.Path.{ap₂}
use effect_rs.Failure.Cause.{Cause, fail, die, interrupt, both, then_, map_fail, contains, flatten}

map_fail-id : {E : Type 0} (c : Cause E) → map_fail (λ e. e) c ≡ c
unfolding map_fail
map_fail-id (fail e) = refl
map_fail-id (die m) = refl
map_fail-id (interrupt i) = refl
map_fail-id (both l r) = ap₂ both (map_fail-id l) (map_fail-id r)
map_fail-id (then_ l r) = ap₂ then_ (map_fail-id l) (map_fail-id r)

map_fail-map_fail :
    {E F G : Type 0} (f : E → F) (g : F → G) (c : Cause E)
    → map_fail g (map_fail f c) ≡ map_fail (λ e. g (f e)) c
unfolding map_fail
map_fail-map_fail f g (fail e) = refl
map_fail-map_fail f g (die m) = refl
map_fail-map_fail f g (interrupt i) = refl
map_fail-map_fail f g (both l r) = ap₂ both (map_fail-map_fail f g l) (map_fail-map_fail f g r)
map_fail-map_fail f g (then_ l r) = ap₂ then_ (map_fail-map_fail f g l) (map_fail-map_fail f g r)

-- `map_fail` is a functor: the identity changes nothing and two maps in a row are one.
pub map_fail_functor :
    {E F G : Type 0} (f : E → F) (g : F → G) (c : Cause E)
    → (map_fail (λ e. e) c ≡ c) × (map_fail g (map_fail f c) ≡ map_fail (λ e. g (f e)) c)
map_fail_functor f g c = (map_fail-id c, map_fail-map_fail f g c)

flatten-map_fail-fail : {E : Type 0} (c : Cause E) → flatten (map_fail fail c) ≡ c
unfolding flatten map_fail
flatten-map_fail-fail (fail e) = refl
flatten-map_fail-fail (die m) = refl
flatten-map_fail-fail (interrupt i) = refl
flatten-map_fail-fail (both l r) = ap₂ both (flatten-map_fail-fail l) (flatten-map_fail-fail r)
flatten-map_fail-fail (then_ l r) = ap₂ then_ (flatten-map_fail-fail l) (flatten-map_fail-fail r)

flatten-flatten :
    {E : Type 0} (c : Cause (Cause (Cause E))) → flatten (flatten c) ≡ flatten (map_fail flatten c)
unfolding flatten map_fail
flatten-flatten (fail e) = refl
flatten-flatten (die m) = refl
flatten-flatten (interrupt i) = refl
flatten-flatten (both l r) = ap₂ both (flatten-flatten l) (flatten-flatten r)
flatten-flatten (then_ l r) = ap₂ then_ (flatten-flatten l) (flatten-flatten r)

-- Flattening is the multiplication of a monad whose unit is `fail`: flattening a wrapped cause
-- gives it back, flattening a cause of wrapped errors does too, and of three layers either pair
-- may be flattened first.
pub flatten_monad :
    {E : Type 0} (c : Cause E) (t : Cause (Cause (Cause E)))
    → (flatten (fail c) ≡ c)
      × (flatten (map_fail fail c) ≡ c)
      × (flatten (flatten t) ≡ flatten (map_fail flatten t))
flatten_monad c t = (unfold flatten in refl, flatten-map_fail-fail c, flatten-flatten t)

-- The cause and its sub-causes, in depth-first order.
abbrev pub sub_causes : {E : Type 0} → Cause E → List (Cause E)
sub_causes (both l r) = both l r ∷ (sub_causes l ++ sub_causes r)
sub_causes (then_ l r) = then_ l r ∷ (sub_causes l ++ sub_causes r)
sub_causes (fail e) = fail e ∷ []
sub_causes (die m) = die m ∷ []
sub_causes (interrupt i) = interrupt i ∷ []

-- `contains` tests exactly the cause and its sub-causes.
pub contains-eq-any :
    {E : Type 0} (pred : Cause E → Bool) (c : Cause E) → contains pred c ≡ any pred (sub_causes c)
unfolding contains
contains-eq-any pred (fail e) = refl
contains-eq-any pred (die m) = refl
contains-eq-any pred (interrupt i) = refl
contains-eq-any pred (both l r) =
    rw (
      any-append pred (sub_causes l) (sub_causes r),
      contains-eq-any pred l,
      contains-eq-any pred r,
    )
contains-eq-any pred (then_ l r) =
    rw (
      any-append pred (sub_causes l) (sub_causes r),
      contains-eq-any pred l,
      contains-eq-any pred r,
    )
