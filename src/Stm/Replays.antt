-- ===== src/Stm/Replays.antt =====
-- Programs whose log explains their result: wherever the log is still valid, running again alone
-- gives the same result and the same log. Every combinator keeps the property.
use effect_rs.Prelude.{
  ℕ, ◌+◌, ◌≤◌, ◌<◌, ◌≡◌, refl, sym, ap, ◌∙◌, fun_ext, Bool, true, false, some, arith, if◌then◌else◌,
}
use mathlib.Core.Path.{subst}
use effect_rs.Stm.Heap.{Heap, World, version_mod, turns, pending, quiet}
use effect_rs.Stm.Later.{Later, Later-trans, turns-Later, turns-add}
use effect_rs.Stm.Txn.{Txn, validate}
use effect_rs.Stm.Program.{
  Stm, Outcome, done, fail, retry, succeed, fail_with, retry_now, or_else, flat_map, map, check,
}

module _ {ℓ} {V : Type ℓ} where
  -- The versions that the attempt has read are the live ones.
  abbrev pub Valid : Heap V → Txn V → Type 0
  Valid h txn = validate h txn.read_validators ≡ true

  -- Each cell with a validator has a shadow value.
  abbrev pub Tracked : Txn V → Type ℓ
  Tracked txn = (id : ℕ) → txn.validated id ≡ true → (v : V) × (txn.shadow id ≡ some v)

module _ {ℓ} {V A E : Type ℓ} where
  pub record Replays (p : Stm V A E) : Type ℓ where
    pub settles : (w : World V) (t : Txn V) → (k : ℕ) × ((p w t).1 ≡ turns k w)
    pub tracks : (w : World V) (t : Txn V) → Tracked t → Tracked (p w t).2
    pub extends : (w : World V) (t : Txn V) (h : Heap V) → Valid h (p w t).2 → Valid h t
    pub replays :
        (w : World V) (t : Txn V) (m : ℕ) (h : Heap V)
        → Tracked t
        → pending w < version_mod
        → m ≤ pending (p w t).1
        → Later m (p w t).1.heap h
        → Valid h (p w t).2
        → p (quiet h) t ≡ ((p w t).0, quiet h, (p w t).2)
    pub alone :
        (h : Heap V) (t : Txn V)
        → Tracked t
        → Valid h t
        → ((p (quiet h) t).1 ≡ quiet h) × Valid h (p (quiet h) t).2

  -- While the program runs, other threads make some of their pending writes.
  pub settled :
      (p : Stm V A E)
      → Replays p
      → (w : World V) (t : Txn V)
      → (n : ℕ) × (n + pending (p w t).1 ≡ pending w) × Later n w.heap (p w t).1.heap
  settled p r w t =
      let (k, e) = r.settles w t in
      subst (λ (x : World V). (n : ℕ) × (n + pending x ≡ pending w) × Later n w.heap x.heap) (sym e)
        (turns-Later k w)

  -- A program that looks at neither the heap nor the log.
  Replays-still : (o : Outcome A E) → Replays (λ w t. (o, w, t))
  Replays-still o = record {
    settles = λ w t. (0, refl);
    tracks = λ w t k. k;
    extends = λ w t h v. v;
    replays = λ w t m h k small le later v. refl;
    alone = λ h t k v. (refl, v);
  }

  pub Replays-succeed : (a : A) → Replays (succeed a)
  unfolding succeed
  Replays-succeed a = Replays-still (done a)

  pub Replays-fail_with : (e : E) → Replays (fail_with e)
  unfolding fail_with
  Replays-fail_with e = Replays-still (fail e)

  pub Replays-retry_now : Replays retry_now
  unfolding retry_now
  Replays-retry_now = Replays-still retry

-- Running one program after another, whatever the first one's outcome.
chain {ℓ} : {V A E B F : Type ℓ} → Stm V A E → (Outcome A E → Stm V B F) → Stm V B F
chain p k w t = let (o, w1, t1) = p w t in k o w1 t1

module _ {ℓ} {V A E B F : Type ℓ} where
  Replays-chain :
      (p : Stm V A E) (k : Outcome A E → Stm V B F)
      → Replays p
      → ((o : Outcome A E) → Replays (k o))
      → Replays (chain p k)
  unfolding chain
  Replays-chain p k hp hk = record {
    settles = λ w t.
        let (o, w1, t1) = p w t in
        let (j, e) = hp.settles w t in
        let (k', e') = (hk o).settles w1 t1 in (j + k', e' ∙ ap (turns k') e ∙ turns-add j k' w);
    tracks = λ w t z. let (o, w1, t1) = p w t in (hk o).tracks w1 t1 (hp.tracks w t z);
    extends = λ w t h v. let (o, w1, t1) = p w t in hp.extends w t h ((hk o).extends w1 t1 h v);
    replays = λ w t m h z small le later v.
        let (o, w1, t1) = p w t in
        let (n, e, l) = settled p hp w t in
        let (n', e', l') = settled (k o) (hk o) w1 t1 in
        let first =
          hp.replays w t (n' + m) h z small (omega arith) (Later-trans n' m _ _ _ l' later)
            ((hk o).extends w1 t1 h v) in
        let second = (hk o).replays w1 t1 m h (hp.tracks w t z) (omega arith) le later v in
        ap (λ (x : Outcome A E × World V × Txn V). k x.0 x.1 x.2) first ∙ second;
    alone = λ h t z v.
        let (still, v1) = hp.alone h t z v in
        let (o, w1, t1) = p (quiet h) t in
        subst (λ (x : World V). ((k o x t1).1 ≡ quiet h) × Valid h (k o x t1).2) (sym still)
          ((hk o).alone h t1 (hp.tracks (quiet h) t z) v1);
  }

module _ {ℓ} {V A B E : Type ℓ} where
  abbrev then_flat : (A → Stm V B E) → Outcome A E → Stm V B E
  then_flat f (done a) = f a
  then_flat f (fail e) = fail_with e
  then_flat f retry = retry_now

  flat_map-eq-chain : (p : Stm V A E) (f : A → Stm V B E) → flat_map p f ≡ chain p (then_flat f)
  unfolding flat_map chain fail_with retry_now
  flat_map-eq-chain p f = fun_ext λ w. fun_ext λ t. by_outcome (p w t)
    where
      by_outcome :
          (x : Outcome A E × World V × Txn V)
          → elim x.0 [
            | done a ↦ f a x.1 x.2
            | fail e ↦ (fail e, x.1, x.2)
            | retry ↦ (retry, x.1, x.2)
          ]
            ≡ then_flat f x.0 x.1 x.2
      by_outcome (done a, w, t) = refl
      by_outcome (fail e, w, t) = refl
      by_outcome (retry, w, t) = refl

  Replays-then_flat :
      (f : A → Stm V B E) → ((a : A) → Replays (f a)) → (o : Outcome A E) → Replays (then_flat f o)
  Replays-then_flat f hf (done a) = hf a
  Replays-then_flat f hf (fail e) = Replays-fail_with e
  Replays-then_flat f hf retry = Replays-retry_now

  pub Replays-flat_map :
      (p : Stm V A E) (f : A → Stm V B E)
      → Replays p
      → ((a : A) → Replays (f a))
      → Replays (flat_map p f)
  Replays-flat_map p f hp hf =
      subst Replays (sym (flat_map-eq-chain p f))
        (Replays-chain p (then_flat f) hp (Replays-then_flat f hf))

  map-eq-flat_map : (p : Stm V A E) (f : A → B) → map p f ≡ flat_map p (λ a. succeed (f a))
  unfolding map flat_map succeed
  map-eq-flat_map p f = refl

  pub Replays-map : (p : Stm V A E) (f : A → B) → Replays p → Replays (map p f)
  Replays-map p f hp =
      subst Replays (sym (map-eq-flat_map p f))
        (Replays-flat_map p (λ a. succeed (f a)) hp (λ a. Replays-succeed (f a)))

module _ {ℓ} {V A E : Type ℓ} where
  abbrev then_else : Stm V A E → Outcome A E → Stm V A E
  then_else that (done a) = succeed a
  then_else that (fail e) = fail_with e
  then_else that retry = that

  or_else-eq-chain : (self that : Stm V A E) → or_else self that ≡ chain self (then_else that)
  unfolding or_else chain fail_with succeed
  or_else-eq-chain self that = fun_ext λ w. fun_ext λ t. by_outcome (self w t)
    where
      by_outcome :
          (x : Outcome A E × World V × Txn V)
          → elim x.0 [
            | done a ↦ (done a, x.1, x.2)
            | fail e ↦ (fail e, x.1, x.2)
            | retry ↦ that x.1 x.2
          ]
            ≡ then_else that x.0 x.1 x.2
      by_outcome (done a, w, t) = refl
      by_outcome (fail e, w, t) = refl
      by_outcome (retry, w, t) = refl

  Replays-then_else :
      (that : Stm V A E) → Replays that → (o : Outcome A E) → Replays (then_else that o)
  Replays-then_else that h (done a) = Replays-succeed a
  Replays-then_else that h (fail e) = Replays-fail_with e
  Replays-then_else that h retry = h

  pub Replays-or_else :
      (self that : Stm V A E) → Replays self → Replays that → Replays (or_else self that)
  Replays-or_else self that hs ht =
      subst Replays (sym (or_else-eq-chain self that))
        (Replays-chain self (then_else that) hs (Replays-then_else that ht))

  pub Replays-if :
      (b : Bool) (p q : Stm V A E) → Replays p → Replays q → Replays (if b then p else q)
  Replays-if true p q hp hq = hp
  Replays-if false p q hp hq = hq

pub Replays-check {ℓ} : {V E : Type ℓ} (cond : Bool) → Replays (check {V = V} {E = E} cond)
unfolding check
Replays-check true = Replays-succeed tt
Replays-check false = Replays-retry_now
