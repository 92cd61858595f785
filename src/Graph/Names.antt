-- ===== src/Graph/Names.antt =====
-- The sets and maps of names that crates/id_effect_graph uses: the standard library's `BTreeSet` and
-- `BTreeMap`, lists in ascending order of their keys. Names are only compared; they are numbers.
use effect_rs.Prelude.{
  ℕ, suc, ◌≡◌, refl, ap, Bool, true, false, ◌&&◌, ◌||◌, not, Option, none, some, List, [], ◌∷◌,
  ◌++◌, arith, ltb, ◌==◌, if◌then◌else◌, length,
}

abbrev pub mem : ℕ → List ℕ → Bool
mem v [] = false
mem v (x ∷ xs) = x == v || mem v xs

abbrev pub distinct : List ℕ → Bool
distinct [] = true
distinct (x ∷ xs) = not (mem x xs) && distinct xs

-- `BTreeSet::insert`, without its answer
abbrev pub insert : ℕ → List ℕ → List ℕ
insert v [] = v ∷ []
insert v (x ∷ xs) = if ltb v x then v ∷ x ∷ xs else (if x == v then x ∷ xs else x ∷ insert v xs)

module _ {A : Type 0} where
  abbrev pub keys : List (ℕ × A) → List ℕ
  keys [] = []
  keys ((k, a) ∷ rest) = k ∷ keys rest

  -- `BTreeMap::get`
  abbrev pub get : ℕ → List (ℕ × A) → Option A
  get v [] = none
  get v ((k, a) ∷ rest) = if k == v then some a else get v rest

  -- `BTreeMap::insert` beside the value it replaced
  abbrev pub put : ℕ → A → List (ℕ × A) → List (ℕ × A)
  put v b [] = (v, b) ∷ []
  put v b ((k, a) ∷ rest) =
      if ltb v k
      then (v, b) ∷ (k, a) ∷ rest
      else (if k == v then (k, b) ∷ rest else (k, a) ∷ put v b rest)

  -- A write through `BTreeMap::get_mut`.
  abbrev pub write : ℕ → A → List (ℕ × A) → List (ℕ × A)
  write v b [] = []
  write v b ((k, a) ∷ rest) = if k == v then (k, b) ∷ rest else (k, a) ∷ write v b rest

  -- The map that gives every name of a set the same value.
  abbrev pub constant : A → List ℕ → List (ℕ × A)
  constant a [] = []
  constant a (k ∷ ks) = (k, a) ∷ constant a ks

  pub keys-write : (v : ℕ) (b : A) (m : List (ℕ × A)) → keys (write v b m) ≡ keys m
  keys-write v b [] = refl
  keys-write v b ((k, a) ∷ rest) = ground (arith, keys-write v b rest)

  pub keys-constant : (a : A) (ks : List ℕ) → keys (constant a ks) ≡ ks
  keys-constant a [] = refl
  keys-constant a (k ∷ ks) = ap (λ l. k ∷ l) (keys-constant a ks)

  pub get-write :
      (v u : ℕ) (b : A) (m : List (ℕ × A))
      → get u (write v b m) ≡ (if v == u && mem v (keys m) then some b else get u m)
  get-write v u b [] = ground arith
  get-write v u b ((k, a) ∷ rest) = ground (arith, get-write v u b rest)

  pub get-constant :
      (a : A) (v : ℕ) (ks : List ℕ) → get v (constant a ks) ≡ (if mem v ks then some a else none)
  get-constant a v [] = refl
  get-constant a v (k ∷ ks) = ground (arith, get-constant a v ks)

  pub get-put :
      (v u : ℕ) (b : A) (m : List (ℕ × A))
      → get u (put v b m) ≡ (if v == u then some b else get u m)
  get-put v u b [] = ground arith
  get-put v u b ((k, a) ∷ rest) = ground (arith, get-put v u b rest)

  pub mem-keys : (v : ℕ) (a : A) (m : List (ℕ × A)) → get v m ≡ some a → mem v (keys m) ≡ true
  mem-keys v a [] h = ground arith
  mem-keys v a ((k, b) ∷ rest) h = ground (arith, mem-keys v a rest)

  pub get-absent : (v : ℕ) (m : List (ℕ × A)) → mem v (keys m) ≡ false → get v m ≡ none
  get-absent v [] h = refl
  get-absent v ((k, b) ∷ rest) h = ground (arith, get-absent v rest)

pub mem-insert : (v u : ℕ) (s : List ℕ) → mem u (insert v s) ≡ (v == u || mem u s)
mem-insert v u [] = refl
mem-insert v u (x ∷ xs) = ground (arith, mem-insert v u xs)

pub distinct-insert :
    (v : ℕ) (s : List ℕ) → distinct s ≡ true → mem v s ≡ false → distinct (insert v s) ≡ true
distinct-insert v [] d h = refl
distinct-insert v (x ∷ xs) d h = ground (arith, distinct-insert v xs, mem-insert v x xs)

pub length-insert : (v : ℕ) (s : List ℕ) → mem v s ≡ false → length (insert v s) ≡ suc (length s)
length-insert v [] h = refl
length-insert v (x ∷ xs) h = ground (arith, length-insert v xs)

pub mem-append : (v : ℕ) (xs ys : List ℕ) → mem v (xs ++ ys) ≡ (mem v xs || mem v ys)
mem-append v [] ys = refl
mem-append v (x ∷ xs) ys = ground (arith, mem-append v xs ys)

pub distinct-snoc :
    (xs : List ℕ) (v : ℕ) → distinct (xs ++ v ∷ []) ≡ (distinct xs && not (mem v xs))
distinct-snoc [] v = refl
distinct-snoc (x ∷ xs) v = ground (arith, distinct-snoc xs v, mem-append x xs (v ∷ []))
