-- ===== src/Resources/Store.antt =====
-- What an update of the store of scopes changes, and the finalizers that scopes and trace hold.
use effect_rs.Prelude.{
  ℕ, zero, suc, ◌+◌, ◌≡◌, refl, ap, some, List, [], ◌∷◌, ◌++◌, ◌==◌, if◌then◌else◌, get_elem?,
  arith,
}
use effect_rs.Resources.Scopes.{ScopeInner, Scopes, update_at, last_first, run_with}

abbrev pub occurrences : ℕ → List ℕ → ℕ
occurrences f [] = 0
occurrences f (x ∷ xs) = (if x == f then 1 else 0) + occurrences f xs

-- The scopes that are not closed.
abbrev pub open_count : List ScopeInner → ℕ
open_count [] = 0
open_count (i ∷ is_) = (if i.closed then 0 else 1) + open_count is_

-- The times that scopes hold a finalizer.
abbrev pub pending : ℕ → List ScopeInner → ℕ
pending f [] = 0
pending f (i ∷ is_) = occurrences f i.finalizers + pending f is_

module _ {Exit : Type 0} where
  -- The times that a finalizer has run.
  abbrev pub runs : ℕ → List (ℕ × Exit) → ℕ
  runs f [] = 0
  runs f ((g, exit) ∷ rest) = (if g == f then 1 else 0) + runs f rest

  -- The times that a finalizer is held or has run.
  abbrev pub accounted : ℕ → Scopes Exit → ℕ
  accounted f scopes = pending f scopes.inners + runs f scopes.ran

  pub runs-append : (f : ℕ) (xs ys : List (ℕ × Exit)) → runs f (xs ++ ys) ≡ runs f xs + runs f ys
  runs-append f [] ys = omega arith
  runs-append f ((g, exit) ∷ xs) ys = omega (arith, runs-append f xs ys)

  pub runs-run_with :
      (f : ℕ) (exit : Exit) (fs : List ℕ) → runs f (run_with exit fs) ≡ occurrences f fs
  runs-run_with f exit [] = refl
  runs-run_with f exit (g ∷ fs) = omega (arith, runs-run_with f exit fs)

occurrences-append :
    (f : ℕ) (xs ys : List ℕ) → occurrences f (xs ++ ys) ≡ occurrences f xs + occurrences f ys
occurrences-append f [] ys = omega arith
occurrences-append f (x ∷ xs) ys = omega (arith, occurrences-append f xs ys)

pub occurrences-last_first :
    (f : ℕ) (fs : List ℕ) → occurrences f (last_first fs) ≡ occurrences f fs
occurrences-last_first f [] = refl
occurrences-last_first f (g ∷ fs) =
    omega (arith, occurrences-last_first f fs, occurrences-append f (last_first fs) (g ∷ []))

pub get-update_at :
    {A : Type 0} (i j : ℕ) (g : A → A) (xs : List A) (x : A)
    → get_elem? xs j ≡ some x
    → get_elem? (update_at i g xs) j ≡ some (if i == j then g x else x)
get-update_at i j g [] x h = ground arith
get-update_at zero zero g (y ∷ ys) x h = ground (arith, λ (e : y ≡ x). ap g e)
get-update_at zero (suc j) g (y ∷ ys) x h = ground arith
get-update_at (suc i) zero g (y ∷ ys) x h = ground arith
get-update_at (suc i) (suc j) g (y ∷ ys) x h = ground (arith, get-update_at i j g ys x h)

pub pending-update_at :
    (f i : ℕ) (g : ScopeInner → ScopeInner) (xs : List ScopeInner) (x : ScopeInner)
    → get_elem? xs i ≡ some x
    → pending f (update_at i g xs) + occurrences f x.finalizers
      ≡ pending f xs + occurrences f (g x).finalizers
pending-update_at f i g [] x h = ground arith
pending-update_at f zero g (y ∷ ys) x h = ground (
  arith,
  λ (e : y ≡ x). ap (λ z. occurrences f (g z).finalizers) e,
  λ (e : y ≡ x). ap (λ z. occurrences f z.finalizers) e,
)
pending-update_at f (suc i) g (y ∷ ys) x h = omega (arith, pending-update_at f i g ys x h)

pub open_count-update_at :
    (i : ℕ) (g : ScopeInner → ScopeInner) (xs : List ScopeInner) (x : ScopeInner)
    → get_elem? xs i ≡ some x
    → open_count (update_at i g xs) + (if x.closed then 0 else 1)
      ≡ open_count xs + (if (g x).closed then 0 else 1)
open_count-update_at i g [] x h = ground arith
open_count-update_at zero g (y ∷ ys) x h =
    ground (arith, λ (e : y ≡ x). ap (λ z. (g z).closed) e, λ (e : y ≡ x). ap (λ z. z.closed) e)
open_count-update_at (suc i) g (y ∷ ys) x h = omega (arith, open_count-update_at i g ys x h)
