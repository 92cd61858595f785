-- ===== src/Resources/Closing.antt =====
-- What a close of a scope leaves, and that it ends.
use effect_rs.Prelude.{
  ℕ, ◌≡◌, ◌≤◌, refl, sym, ap, ◌∙◌, Bool, true, false, ◌||◌, some, List, [], ◌∷◌, ◌++◌, ◌==◌, arith,
  inl, inr, Option-cases,
}
use effect_rs.Coordination.Offers.{append_nil}
use effect_rs.Resources.Scopes.{ScopeInner, Scopes, inner_of, upgrade}
use effect_rs.Resources.Store.{open_count, accounted}

pub append_assoc : {A : Type 0} (xs ys zs : List A) → (xs ++ ys) ++ zs ≡ xs ++ (ys ++ zs)
append_assoc [] ys zs = refl
append_assoc (x ∷ xs) ys zs = ap (λ l. x ∷ l) (append_assoc xs ys zs)

abbrev pub named : ℕ → List ℕ → Bool
named c [] = false
named c (x ∷ xs) = x == c || named c xs

module _ {Exit : Type 0} where
  abbrev pub IsClosedAt : ℕ → Scopes Exit → Type 0
  IsClosedAt id scopes = (i : ScopeInner) × (inner_of id scopes ≡ some i) × (i.closed ≡ true)

  -- Closed scopes are left as they are, no scope goes, no scope opens, the trace grows at its end,
  -- and every finalizer is held or has run as often as before.
  pub record Keeps (before after : Scopes Exit) : Type 0 where
    pub shut :
        (id : ℕ) (i : ScopeInner)
        → inner_of id before ≡ some i
        → i.closed ≡ true
        → inner_of id after ≡ some i
    pub stays :
        (id : ℕ) (i : ScopeInner)
        → inner_of id before ≡ some i
        → (i' : ScopeInner) × (inner_of id after ≡ some i') × (i'.alive ≡ i.alive)
    pub fewer : open_count after.inners ≤ open_count before.inners
    pub same : (f : ℕ) → accounted f after ≡ accounted f before
    pub later : (new : List (ℕ × Exit)) × (after.ran ≡ before.ran ++ new)

  pub Keeps-refl : (scopes : Scopes Exit) → Keeps scopes scopes
  Keeps-refl scopes = record {
    shut = λ id i e c. e;
    stays = λ id i e. (i, e, refl);
    fewer = omega arith;
    same = λ f. refl;
    later = ([], sym (append_nil scopes.ran));
  }

  pub Keeps-trans : (a b c : Scopes Exit) → Keeps a b → Keeps b c → Keeps a c
  Keeps-trans a b c h k = record {
    shut = λ id i e closed. k.shut id i (h.shut id i e closed) closed;
    stays = λ id i e.
        let (j, e', alive) = h.stays id i e in
        let (l, e'', alive') = k.stays id j e' in (l, e'', alive' ∙ alive);
    fewer = omega (arith, h.fewer, k.fewer);
    same = λ f. k.same f ∙ h.same f;
    later =
        let (new, e) = h.later in
        let (new', e') = k.later in
        (new ++ new', e' ∙ ap (λ r. r ++ new') e ∙ append_assoc a.ran new new');
  }

  pub IsClosedAt-Keeps :
      (id : ℕ) (a b : Scopes Exit) → Keeps a b → IsClosedAt id a → IsClosedAt id b
  IsClosedAt-Keeps id a b k (i, e, c) = (i, k.shut id i e c, c)

  pub upgrade-Keeps :
      (id : ℕ) (a b : Scopes Exit) → Keeps a b → upgrade id a ≡ true → upgrade id b ≡ true
  upgrade-Keeps id a b k u = elim (Option-cases (inner_of id a)) [
    | inl e ↦ ground (arith, e)
    | inr (i, e) ↦ let (i', e', alive) = k.stays id i e in ground (arith, e, e', alive)
  ]
