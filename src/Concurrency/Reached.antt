-- ===== src/Concurrency/Reached.antt =====
-- The whole of `cancel`, and of `child_token`.
use effect_rs.Prelude.{ℕ, ◌≡◌, true, some, get_elem?}
use effect_rs.Concurrency.Cancel.{CancellationInner, Tokens}
use effect_rs.Concurrency.Propagation.{Reaches}

-- The living children of cancelled tokens are cancelled.
abbrev pub IsPropagated : Tokens → Type 0
IsPropagated tokens =
    (id : ℕ) (t : CancellationInner)
    → get_elem? tokens id ≡ some t
    → t.cancelled ≡ true
    → Reaches t tokens
