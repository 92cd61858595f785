-- ===== src/Optics/ZipperLaws.antt =====
-- A zipper and the trie that it rebuilds.
use effect_rs.Prelude.{
  ℕ, ◌≡◌, refl, ap, ◌∙◌, Option, none, some, List, [], ◌∷◌, ◌++◌, ◌==◌, if◌then◌else◌, arith,
  Option-cases, ==_iff, inl, inr,
}
use mathlib.Core.Path.{subst}
use effect_rs.Optics.Zipper.{
  TrieNode, node, Children, no_edge, edge, find_edge, put_edge, child, with_child, TrieZipper,
  descend, ascend, rebuild, rebuild_from,
}

module _ {V : Type 0} where
  find-put_edge :
      (key k : ℕ) (c : TrieNode V) (cs : Children V)
      → find_edge k (put_edge key c cs) ≡ (if key == k then some c else find_edge k cs)
  find-put_edge key k c no_edge = refl
  find-put_edge key k c (edge j d rest) = ground (arith, find-put_edge key k c rest)

  put-find_edge :
      (key : ℕ) (c : TrieNode V) (cs : Children V)
      → find_edge key cs ≡ some c
      → put_edge key c cs ≡ cs
  put-find_edge key c no_edge h = ground arith
  put-find_edge key c (edge j d rest) h = ground (arith, put-find_edge key c rest)

  child-with_child :
      (n : TrieNode V) (key k : ℕ) (c : TrieNode V)
      → child (with_child n key c) k ≡ (if key == k then some c else child n k)
  unfolding child with_child
  child-with_child (node value children) key k c = find-put_edge key k c children

  with_child-child :
      (n : TrieNode V) (key : ℕ) (c : TrieNode V) → child n key ≡ some c → with_child n key c ≡ n
  unfolding child with_child
  with_child-child (node value children) key c h = ap (node value) (put-find_edge key c children h)

  -- A step down an edge changes neither the trie that the zipper rebuilds, nor the zipper that a
  -- step up from there gives.
  pub descend-keeps :
      (z z' : TrieZipper V) (key : ℕ)
      → descend z key ≡ some z'
      → (rebuild z' ≡ rebuild z) × (ascend z' ≡ some z)
  unfolding descend rebuild ascend
  descend-keeps z z' key h = elim (Option-cases (child z.focus key)) [
    | inl e ↦ absurd (cc (rw (descend, e) at h))
    | inr (c, e) ↦
        let down : TrieZipper V = record { focus = c; path = (key, z.focus) ∷ z.path } in
        let same : down ≡ z' = ground (arith, e, h) in
        subst (λ (d : TrieZipper V). (rebuild d ≡ rebuild z) × (ascend d ≡ some z)) same
          (ap (λ n. rebuild_from n z.path) (with_child-child z.focus key c e), refl)
  ]

  -- The node that a list of keys leads to.
  abbrev pub node_at : List ℕ → TrieNode V → Option (TrieNode V)
  node_at [] n = some n
  node_at (key ∷ keys) n = elim (child n key) [ none ↦ none | some c ↦ node_at keys c ]

  abbrev pub keys_of : List (ℕ × TrieNode V) → List ℕ
  keys_of [] = []
  keys_of ((key, parent) ∷ path) = keys_of path ++ key ∷ []

  node_at-snoc :
      (ks : List ℕ) (n m : TrieNode V) (key : ℕ)
      → node_at ks n ≡ some m
      → node_at (ks ++ key ∷ []) n ≡ child m key
  node_at-snoc [] n m key h = elim (Option-cases (child n key)) [
    | inl e ↦ ground (arith, e, h)
    | inr (c, e) ↦ ground (arith, e, h)
  ]
  node_at-snoc (k ∷ ks) n m key h = elim (Option-cases (child n k)) [
    | inl e ↦ absurd (cc (rw (node_at, e) at h))
    | inr (c, e) ↦ rw (node_at, e) (node_at-snoc ks c m key (rw (node_at, e) at h))
  ]

  rebuild_from-node_at :
      (c : TrieNode V) (path : List (ℕ × TrieNode V))
      → node_at (keys_of path) (rebuild_from c path) ≡ some c
  rebuild_from-node_at c [] = refl
  rebuild_from-node_at c ((key, parent) ∷ path) =
      node_at-snoc (keys_of path) (rebuild_from (with_child parent key c) path)
        (with_child parent key c) key (rebuild_from-node_at (with_child parent key c) path)
      ∙ child-with_child parent key key c
      ∙ ground (arith, ==_iff key key)

  -- In the trie that a zipper rebuilds, the keys of its path lead to its focus, edits included.
  pub rebuild-focus : (z : TrieZipper V) → node_at (keys_of z.path) (rebuild z) ≡ some z.focus
  unfolding rebuild
  rebuild-focus z = rebuild_from-node_at z.focus z.path
