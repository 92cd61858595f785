-- ===== src/Optics/Zipper.antt =====
-- crates/id_effect_optics/src/zipper.rs: a focus into a trie. Keys are the characters' codes, and
-- a map's entries keep the order in which they came, which nothing reads.
use effect_rs.Prelude.{ℕ, Option, none, some, List, [], ◌∷◌, ◌==◌, if◌then◌else◌}

mutual
  pub data TrieNode (V : Type 0) : Type 0 where
    node : (value : Option V) (children : Children V) → TrieNode V

  pub data Children (V : Type 0) : Type 0 where
    no_edge : Children V
    edge : ℕ → TrieNode V → Children V → Children V

module _ {V : Type 0} where
  abbrev pub find_edge : ℕ → Children V → Option (TrieNode V)
  find_edge key no_edge = none
  find_edge key (edge k child rest) = if k == key then some child else find_edge key rest

  abbrev pub put_edge : ℕ → TrieNode V → Children V → Children V
  put_edge key new no_edge = edge key new no_edge
  put_edge key new (edge k child rest) =
      if k == key then edge k new rest else edge k child (put_edge key new rest)

  abbrev pub cut_edge : ℕ → Children V → Children V
  cut_edge key no_edge = no_edge
  cut_edge key (edge k child rest) = if k == key then rest else edge k child (cut_edge key rest)

  abbrev pub value_of : TrieNode V → Option V
  value_of (node value children) = value

  -- `TrieNode::new`
  abbrev pub empty_node : TrieNode V
  empty_node = node none no_edge

  abbrev pub leaf : V → TrieNode V
  leaf value = node (some value) no_edge

  unfoldable pub child : TrieNode V → ℕ → Option (TrieNode V)
  child (node value children) key = find_edge key children

  unfoldable pub with_child : TrieNode V → ℕ → TrieNode V → TrieNode V
  with_child (node value children) key new = node value (put_edge key new children)

  unfoldable pub without_child : TrieNode V → ℕ → Option (TrieNode V)
  without_child (node value children) key = elim (find_edge key children) [
    | none ↦ none
    | some old ↦ some (node value (cut_edge key children))
  ]

-- The path holds the last breadcrumb first.
pub record TrieZipper (V : Type 0) : Type 0 where
  pub focus : TrieNode V
  pub path : List (ℕ × TrieNode V)

module _ {V : Type 0} where
  unfoldable pub start_at : TrieNode V → TrieZipper V
  start_at root = record { focus = root; path = [] }

  unfoldable pub descend : TrieZipper V → ℕ → Option (TrieZipper V)
  unfolding child
  descend z key = elim (child z.focus key) [
    | none ↦ none
    | some c ↦ some (record { focus = c; path = (key, z.focus) ∷ z.path })
  ]

  unfoldable pub ascend : TrieZipper V → Option (TrieZipper V)
  ascend z = elim z.path [
    | [] ↦ none
    | (key, parent) ∷ path ↦ some (record { focus = parent; path = path })
  ]

  abbrev pub rebuild_from : TrieNode V → List (ℕ × TrieNode V) → TrieNode V
  rebuild_from c [] = c
  rebuild_from c ((key, parent) ∷ path) = rebuild_from (with_child parent key c) path

  unfoldable pub rebuild : TrieZipper V → TrieNode V
  unfolding with_child
  rebuild z = rebuild_from z.focus z.path

  unfoldable pub set_value : TrieZipper V → V → TrieZipper V
  set_value z value = elim z.focus [
    | node old children ↦ record z { focus = node (some value) children }
  ]

  unfoldable pub insert_child : TrieZipper V → ℕ → TrieNode V → TrieZipper V
  unfolding with_child
  insert_child z key c = record z { focus = with_child z.focus key c }

  unfoldable pub remove_child : TrieZipper V → ℕ → Option (TrieZipper V)
  unfolding without_child
  remove_child z key = elim (without_child z.focus key) [
    | none ↦ none
    | some focus ↦ some (record z { focus = focus })
  ]
