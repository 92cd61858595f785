-- ===== src/Fsm/MachineLaws.antt =====
-- The transition table as a map.
use effect_rs.Prelude.{
  suc, ◌≡◌, refl, ◌↔◌, true, none, some, List, [], ◌∷◌, arith, length, if◌then◌else◌, Bool-cases,
  inl, inr,
}
use effect_rs.Fsm.Machine.{Key, TransitionTable, same_key, insert_edge, find_edge, on, next, len}

module _ {S E : Type 0} (k : Key S E) where
  pub same_key_iff :
      (s : S) (e : E) (s' : S) (e' : E) → (same_key k s e s' e' ≡ true) ↔ ((s ≡ s') × (e ≡ e'))
  unfolding same_key
  same_key_iff s e s' e' = ground arith

  find-insert :
      (from : S) (event : E) (to s : S) (e : E) (edges : List (S × E × S))
      → find_edge k s e (insert_edge k from event to edges)
        ≡ (if same_key k from event s e then some to else find_edge k s e edges)
  unfolding find_edge insert_edge
  find-insert from event to s e [] = ground arith
  find-insert from event to s e ((a, b, t) ∷ rest) = ground (
    arith,
    find-insert from event to s e rest,
    same_key_iff a b from event,
    same_key_iff a b s e,
    same_key_iff from event s e,
  )

  length-insert :
      (from : S) (event : E) (to : S) (edges : List (S × E × S))
      → length (insert_edge k from event to edges)
        ≡ (elim (find_edge k from event edges) [ none ↦ suc (length edges) | _ ↦ length edges ])
  unfolding find_edge insert_edge
  length-insert from event to [] = refl
  length-insert from event to ((a, b, t) ∷ rest) = elim (Bool-cases (same_key k a b from event)) [
    | inl e ↦ ground arith
    | inr e ↦ ground (arith, length-insert from event to rest)
  ]

  -- Recording an edge overwrites the edge of its pair and no other: a lookup of the pair finds the
  -- new target, any other lookup what it found before, and the number of edges grows by one
  -- exactly when the pair had no edge.
  pub on_lookup :
      (table : TransitionTable S E) (from : S) (event : E) (to s : S) (e : E)
      → (next k (on k table from event to) s e
          ≡ (if same_key k from event s e then some to else next k table s e))
        × (len (on k table from event to)
            ≡ (elim (next k table from event) [ none ↦ suc (len table) | _ ↦ len table ]))
  unfolding next on len
  on_lookup table from event to s e =
      (find-insert from event to s e table.edges, length-insert from event to table.edges)
