-- ===== src/Tests/Tokens.antt =====
-- Runs of the cancellation tokens.
use effect_rs.Prelude.{◌≡◌, refl, true, false, some, [], ◌∷◌}
use effect_rs.Concurrency.Cancel.{CancellationInner, Tokens, fresh, flag, cancel, child_token}

-- Token 0 has the children 1 and 2, and 2 is dropped.
abbrev top : CancellationInner
top = record fresh { children = 1 ∷ 2 ∷ [] }

abbrev dropped : CancellationInner
dropped = record fresh { alive = false }

abbrev three_tokens : Tokens
three_tokens = top ∷ fresh ∷ dropped ∷ []

top_cancelled : cancel 4 0 three_tokens ≡ some (true, flag top ∷ flag fresh ∷ dropped ∷ [])
unfolding cancel
top_cancelled = refl

-- A child of a cancelled token is cancelled at once.
late_child :
    child_token 4 0 (flag fresh ∷ [])
    ≡ some (1, record (flag fresh) { children = 1 ∷ [] } ∷ flag fresh ∷ [])
unfolding child_token
late_child = refl
