-- ===== src/Resources/Sweeps.antt =====
-- What the closes of one sweep over a family of scopes do to each scope.
use effect_rs.Prelude.{ℕ, ◌≡◌, refl, sym, ap, ◌∙◌, true, false, some, List, [], ◌++◌, ◌⊎◌, inl, inr}
use effect_rs.Coordination.Offers.{append_nil}
use effect_rs.Resources.Scopes.{ScopeInner, Scopes, inner_of, upgrade, last_first, run_with}
use effect_rs.Resources.Closing.{
  Keeps, IsClosedAt, IsClosedAt-Keeps, append_assoc, named, upgrade-Keeps,
}

abbrev pub ended : ScopeInner → ScopeInner
ended i = record i { closed = true; finalizers = []; latch_open = true }

-- The second list stands in the first one, without a break.
abbrev pub Within : {A : Type 0} → List A → List A → Type 0
Within {A} whole part = (before after : List A) × (whole ≡ before ++ (part ++ after))

pub Within-left : {A : Type 0} (xs ys part : List A) → Within ys part → Within (xs ++ ys) part
Within-left xs ys part (before, after, e) =
    (xs ++ before, after, ap (λ zs. xs ++ zs) e ∙ sym (append_assoc xs before (part ++ after)))

pub Within-right : {A : Type 0} (xs ys part : List A) → Within xs part → Within (xs ++ ys) part
Within-right xs ys part (before, after, e) = (
  before,
  after ++ ys,
  ap (λ zs. zs ++ ys) e
      ∙ append_assoc before (part ++ after) ys
      ∙ ap (λ zs. before ++ zs) (append_assoc part after ys),
)

module _ {Exit : Type 0} where
  -- A scope that was open has been closed: its finalizers have run, from the last to the first and
  -- one directly after another, and its living children are closed.
  abbrev pub Swept : Exit → List (ℕ × Exit) → Scopes Exit → Scopes Exit → ℕ → ScopeInner → Type 0
  Swept exit new before after j k =
      (k.closed ≡ false)
      × (inner_of j after ≡ some (ended k))
      × Within new (run_with exit (last_first k.finalizers))
      × ((c : ℕ) → named c k.children ≡ true → upgrade c before ≡ true → IsClosedAt c after)

  -- Each scope is as before, or has been closed.
  abbrev pub Sweeps : Exit → List (ℕ × Exit) → Scopes Exit → Scopes Exit → Type 0
  Sweeps exit new before after =
      (after.ran ≡ before.ran ++ new)
      × ((j : ℕ) (k : ScopeInner)
          → inner_of j before ≡ some k
          → (inner_of j after ≡ some k) ⊎ Swept exit new before after j k)

  pub Sweeps-refl : (exit : Exit) (scopes : Scopes Exit) → Sweeps exit [] scopes scopes
  Sweeps-refl exit scopes = (sym (append_nil scopes.ran), λ j k e. inl e)

  pub Sweeps-trans :
      (exit : Exit) (new new' : List (ℕ × Exit)) (a b c : Scopes Exit)
      → Keeps a b
      → Keeps b c
      → Sweeps exit new a b
      → Sweeps exit new' b c
      → Sweeps exit (new ++ new') a c
  Sweeps-trans exit new new' a b c keeps keeps' (ran, each) (ran', each') = (
    ran' ∙ ap (λ r. r ++ new') ran ∙ append_assoc a.ran new new',
    λ j k e. elim (each j k e) [
      | inl same ↦ elim (each' j k same) [
        | inl same' ↦ inl same'
        | inr (is_open, end, run, kids) ↦ inr (
          is_open,
          end,
          Within-left new new' _ run,
          λ d m u. kids d m (upgrade-Keeps d a b keeps u),
        )
      ]
      | inr (is_open, end, run, kids) ↦ inr (
        is_open,
        keeps'.shut j (ended k) end refl,
        Within-right new new' _ run,
        λ d m u. IsClosedAt-Keeps d b c keeps' (kids d m u),
      )
    ],
  )
