-- ===== src/Concurrency/Propagation.antt =====
-- A cancellation reaches every living descendant, and ends.
use effect_rs.Prelude.{
  ℕ, zero, suc, ◌+◌, ◌≡◌, ◌≤◌, refl, sym, ap, ◌∙◌, Bool, true, false, ◌||◌, Option, none, some,
  List, [], ◌∷◌, ◌==◌, if◌then◌else◌, get_elem?, arith, inl, inr, Bool-cases, Option-cases, ==_iff,
  ◌⊎◌,
}
use mathlib.Core.Path.{subst}
use effect_rs.Concurrency.Cancel.{CancellationInner, Tokens, change, upgrade, flag, cancel_each}

-- The tokens that are not cancelled.
abbrev pub live_count : Tokens → ℕ
live_count [] = 0
live_count (t ∷ ts) = (if t.cancelled then 0 else 1) + live_count ts

abbrev pub is_named : ℕ → List ℕ → Bool
is_named c [] = false
is_named c (x ∷ xs) = x == c || is_named c xs

pub get-change :
    (i j : ℕ) (g : CancellationInner → CancellationInner) (ts : Tokens) (t : CancellationInner)
    → get_elem? ts j ≡ some t
    → get_elem? (change i g ts) j ≡ some (if i == j then g t else t)
get-change i j g [] t h = ground arith
get-change zero zero g (y ∷ ys) t h = ground (arith, λ (e : y ≡ t). ap g e)
get-change zero (suc j) g (y ∷ ys) t h = ground arith
get-change (suc i) zero g (y ∷ ys) t h = ground arith
get-change (suc i) (suc j) g (y ∷ ys) t h = ground (arith, get-change i j g ys t h)

pub get-unchanged :
    (i j : ℕ) (g : CancellationInner → CancellationInner) (ts : Tokens)
    → get_elem? ts j ≡ none
    → get_elem? (change i g ts) j ≡ none
get-unchanged i j g [] h = h
get-unchanged zero zero g (y ∷ ys) h = cc
get-unchanged zero (suc j) g (y ∷ ys) h = h
get-unchanged (suc i) zero g (y ∷ ys) h = cc
get-unchanged (suc i) (suc j) g (y ∷ ys) h = get-unchanged i j g ys h

pub live_count-flag :
    (i : ℕ) (ts : Tokens) (t : CancellationInner)
    → get_elem? ts i ≡ some t
    → t.cancelled ≡ false
    → suc (live_count (change i flag ts)) ≡ live_count ts
live_count-flag i [] t h c = ground arith
live_count-flag zero (y ∷ ys) t h c = ground (arith, λ (e : y ≡ t). ap (λ z. z.cancelled) e)
live_count-flag (suc i) (y ∷ ys) t h c = omega (arith, live_count-flag i ys t h c)

abbrev pub IsCancelledAt : ℕ → Tokens → Type 0
IsCancelledAt id tokens =
    (t : CancellationInner) × (get_elem? tokens id ≡ some t) × (t.cancelled ≡ true)

-- The living children of a token are cancelled.
abbrev pub Reaches : CancellationInner → Tokens → Type 0
Reaches t tokens =
    (c : ℕ) → is_named c t.children ≡ true → upgrade c tokens ≡ true → IsCancelledAt c tokens

-- A token after cancellations: as it was, or cancelled and notified once more, and then its living
-- children are cancelled.
abbrev pub Becomes : CancellationInner → CancellationInner → Tokens → Type 0
Becomes t t' after = (t' ≡ t) ⊎ ((t.cancelled ≡ false) × (t' ≡ flag t) × Reaches t' after)

pub record Keeps (before after : Tokens) : Type 0 where
  pub fewer : live_count after ≤ live_count before
  pub absent : (id : ℕ) → get_elem? before id ≡ none → get_elem? after id ≡ none
  pub becomes :
      (id : ℕ) (t : CancellationInner)
      → get_elem? before id ≡ some t
      → (t' : CancellationInner) × (get_elem? after id ≡ some t') × Becomes t t' after

pub Keeps-refl : (tokens : Tokens) → Keeps tokens tokens
Keeps-refl tokens = record {
  fewer = omega arith;
  absent = λ id e. e;
  becomes = λ id t e. (t, e, inl refl);
}

stays_cancelled : (a b : Tokens) → Keeps a b → (id : ℕ) → IsCancelledAt id a → IsCancelledAt id b
stays_cancelled a b k id (t, e, c) =
    let (t', e', became) = k.becomes id t e in
    elim became [
      | inl same ↦ (t', e', ap (λ z. z.cancelled) same ∙ c)
      | inr (live, same, reaches) ↦ absurd (cc (live, c))
    ]

Becomes-alive :
    (t t' : CancellationInner) (after : Tokens) → Becomes t t' after → t'.alive ≡ t.alive
Becomes-alive t t' after (inl e) = ap (λ z. z.alive) e
Becomes-alive t t' after (inr (c, e, r)) = ap (λ z. z.alive) e

pub upgrade-Keeps : (a b : Tokens) → Keeps a b → (id : ℕ) → upgrade id b ≡ upgrade id a
upgrade-Keeps a b k id = elim (Option-cases (get_elem? a id)) [
  | inl e ↦ let gone = k.absent id e in ground (arith, e, gone)
  | inr (t, e) ↦
      let (t', e', became) = k.becomes id t e in
      let alive = Becomes-alive t t' b became in ground (arith, e, e', alive)
]

pub Reaches-Keeps : (t : CancellationInner) (a b : Tokens) → Keeps a b → Reaches t a → Reaches t b
Reaches-Keeps t a b k r c m u = stays_cancelled a b k c (r c m (sym (upgrade-Keeps a b k c) ∙ u))

Becomes-trans :
    (t t' t'' : CancellationInner) (b c : Tokens)
    → Keeps b c
    → Becomes t t' b
    → Becomes t' t'' c
    → Becomes t t'' c
Becomes-trans t t' t'' b c k (inl e) (inl f) = inl (f ∙ e)
Becomes-trans t t' t'' b c k (inl e) (inr (live, f, r)) =
    inr (sym (ap (λ z. z.cancelled) e) ∙ live, f ∙ ap flag e, r)
Becomes-trans t t' t'' b c k (inr (live, e, r)) (inl f) =
    inr (live, f ∙ e, subst (λ z. Reaches z c) (sym f) (Reaches-Keeps t' b c k r))
Becomes-trans t t' t'' b c k (inr (live, e, r)) (inr (live', f, r')) =
    absurd (cc (sym (ap (λ z. z.cancelled) e) ∙ live'))

Keeps-trans : (a b c : Tokens) → Keeps a b → Keeps b c → Keeps a c
Keeps-trans a b c h k = record {
  fewer = omega (arith, h.fewer, k.fewer);
  absent = λ id e. k.absent id (h.absent id e);
  becomes = λ id t e.
      let (t', e', first) = h.becomes id t e in
      let (t'', e'', second) = k.becomes id t' e' in
      (t'', e'', Becomes-trans t t' t'' b c k first second);
}

-- A step that cancels one token of a store in which at most `n` are not cancelled.
abbrev pub Cancels : ℕ → (ℕ → Tokens → Option (Bool × Tokens)) → Type 0
Cancels n step =
    (id : ℕ) (tokens : Tokens)
    → live_count tokens ≤ n
    → (first : Bool) × (after : Tokens) × (step id tokens ≡ some (first, after))
      × Keeps tokens after
      × (upgrade id tokens ≡ true → IsCancelledAt id after)

pub cancel_each-Keeps :
    (n : ℕ) (step : ℕ → Tokens → Option (Bool × Tokens)) (children : List ℕ) (tokens : Tokens)
    → Cancels n step
    → live_count tokens ≤ n
    → (after : Tokens) × (cancel_each step children tokens ≡ some after)
      × Keeps tokens after
      × ((c : ℕ) → is_named c children ≡ true → upgrade c tokens ≡ true → IsCancelledAt c after)
unfolding cancel_each
cancel_each-Keeps n step [] tokens h small =
    (tokens, refl, Keeps-refl tokens, λ c m u. absurd (cc m))
cancel_each-Keeps n step (child ∷ children) tokens h small =
    elim (Bool-cases (upgrade child tokens)) [
      | inr dead ↦
          let (after, run, keeps, reached) = cancel_each-Keeps n step children tokens h small in
          (
            after,
            rw (cancel_each, dead) run,
            keeps,
            λ c m u.
                reached c (ground (arith, dead, u, λ (e : child ≡ c). ap (λ k. upgrade k tokens) e))
                  u,
          )
      | inl live ↦
          let (first, next, one, keeps, shut) = h child tokens small in
          let (after, run, keeps', reached) =
            cancel_each-Keeps n step children next h (omega (arith, keeps.fewer)) in
          (
            after,
            rw (cancel_each, live, one) run,
            Keeps-trans tokens next after keeps keeps',
            λ c m u. elim (Bool-cases (child == c)) [
              | inl e ↦
                  subst (λ k. IsCancelledAt k after) ((==_iff child c).0 e)
                    (stays_cancelled next after keeps' child (shut live))
              | inr e ↦ reached c (ground arith) (upgrade-Keeps tokens next keeps c ∙ u)
            ],
          )
    ]
