-- ===== src/Concurrency/Cancel.antt =====
-- crates/id_effect/src/concurrency/cancel.rs: cancellation tokens. A token is the index of its inner
-- record in a store; `notified` counts the calls of `notify_waiters`.
use effect_rs.Prelude.{
  ℕ, zero, suc, Bool, true, false, Option, none, some, List, [], ◌∷◌, ◌++◌, length, get_elem?,
}

pub record CancellationInner : Type 0 where
  pub cancelled : Bool
  pub children : List ℕ
  pub notified : ℕ
  -- Some handle keeps it, so that a weak pointer to it can be upgraded.
  pub alive : Bool

abbrev pub Tokens : Type 0
Tokens = List CancellationInner

abbrev pub change : ℕ → (CancellationInner → CancellationInner) → Tokens → Tokens
change i f [] = []
change zero f (t ∷ ts) = f t ∷ ts
change (suc i) f (t ∷ ts) = t ∷ change i f ts

abbrev pub fresh : CancellationInner
fresh = record { cancelled = false; children = []; notified = 0; alive = true }

-- `CancellationToken::new`
unfoldable pub new : Tokens → ℕ × Tokens
new tokens = (length tokens, tokens ++ fresh ∷ [])

unfoldable pub is_cancelled : ℕ → Tokens → Bool
is_cancelled id tokens = elim (get_elem? tokens id) [ none ↦ false | some inner ↦ inner.cancelled ]

-- `Weak::upgrade`
abbrev pub upgrade : ℕ → Tokens → Bool
upgrade id tokens = elim (get_elem? tokens id) [ none ↦ false | some inner ↦ inner.alive ]

-- The flag is set and the waiters are notified.
abbrev pub flag : CancellationInner → CancellationInner
flag i = record i { cancelled = true; notified = suc i.notified }

-- The `for` over the children that can be upgraded.
unfoldable pub cancel_each : (ℕ → Tokens → Option (Bool × Tokens)) → List ℕ → Tokens → Option Tokens
cancel_each cancel_child [] tokens = some tokens
cancel_each cancel_child (child ∷ children) tokens = elim (upgrade child tokens) [
  | false ↦ cancel_each cancel_child children tokens
  | true ↦ elim (cancel_child child tokens) [
    | none ↦ none
    | some (first, tokens') ↦ cancel_each cancel_child children tokens'
  ]
]

-- `cancel`; `none` says that the fuel for the descendants ran out.
unfoldable pub cancel : ℕ → ℕ → Tokens → Option (Bool × Tokens)
unfolding cancel_each
cancel zero id tokens = none
cancel (suc fuel) id tokens = elim (get_elem? tokens id) [
  | none ↦ some (false, tokens)
  | some inner ↦ elim inner.cancelled [
    | true ↦ some (false, tokens)
    | false ↦ elim (cancel_each (cancel fuel) inner.children (change id flag tokens)) [
      | none ↦ none
      | some tokens' ↦ some (true, tokens')
    ]
  ]
]

-- `child_token`, with fuel for the descendants of the child.
unfoldable pub child_token : ℕ → ℕ → Tokens → Option (ℕ × Tokens)
unfolding is_cancelled cancel
child_token fuel id tokens =
    let child = length tokens in
    let linked =
      change id (λ i. record i { children = i.children ++ child ∷ [] }) (tokens ++ fresh ∷ []) in
    elim (is_cancelled id linked) [
      | false ↦ some (child, linked)
      | true ↦ elim (cancel fuel child linked) [
        | none ↦ none
        | some (first, tokens') ↦ some (child, tokens')
      ]
    ]
