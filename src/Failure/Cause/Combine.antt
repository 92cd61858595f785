-- ===== src/Failure/Cause/Combine.antt =====
-- The `Semigroup` instance of Cause.
use effect_rs.Prelude.{ℕ, ◌+◌, ◌≡◌, ◌≢◌, ap, ◌↔◌, arith}
use effect_rs.Failure.Cause.{Cause, fail, die, interrupt, both, then_, combine}

size : {E : Type 0} → Cause E → ℕ
size (fail e) = 1
size (die m) = 1
size (interrupt i) = 1
size (both l r) = size l + size r + 1
size (then_ l r) = size l + size r + 1

left_of : {E : Type 0} → Cause E → Cause E
left_of (both l r) = l
left_of c = c

-- Grouping a combination to the left never equals grouping it to the right, whatever the three
-- causes: under the derived structural equality `combine` is associative for no inputs.
pub combine_not_assoc :
    {E : Type 0} (a b c : Cause E) → combine (combine a b) c ≢ combine a (combine b c)
unfolding combine size left_of
combine_not_assoc a b c h = absurd (omega (arith, ap size (ap left_of h)))

-- Two combinations in opposite order are equal exactly when the two causes are.
pub combine_comm_iff : {E : Type 0} (a b : Cause E) → (combine a b ≡ combine b a) ↔ (a ≡ b)
unfolding combine left_of
combine_comm_iff a b = (λ h. ap left_of h, λ h. cc)
