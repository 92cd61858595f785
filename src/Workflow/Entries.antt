-- ===== src/Workflow/Entries.antt =====
-- The entries of one workflow, when their sequence numbers count up from 0.
use effect_rs.Prelude.{ℕ, suc, ◌+◌, ◌≤◌, ◌≡◌, refl, none, some, List, [], ◌∷◌, ◌++◌, arith, length}
use effect_rs.Workflow.Journal.{find_seq, insert_seq}

module _ {Json : Type 0} where
  -- The numbers are i, i + 1, and so on.
  abbrev pub CountsFrom : ℕ → List (ℕ × Json) → Type 0
  CountsFrom i [] = Unit
  CountsFrom i ((s, json) ∷ rest) = (s ≡ i) × CountsFrom (suc i) rest

  pub find_beyond :
      (i seq : ℕ) (es : List (ℕ × Json))
      → CountsFrom i es
      → i + length es ≤ seq
      → find_seq seq es ≡ none
  unfolding find_seq
  find_beyond i seq [] c h = refl
  find_beyond i seq ((s, json) ∷ rest) c h = ground (arith, find_beyond (suc i) seq rest)

  pub insert_beyond :
      (i seq : ℕ) (json : Json) (es : List (ℕ × Json))
      → CountsFrom i es
      → i + length es ≤ seq
      → insert_seq seq json es ≡ es ++ (seq, json) ∷ []
  unfolding insert_seq
  insert_beyond i seq json [] c h = refl
  insert_beyond i seq json ((s, x) ∷ rest) c h = ground (arith, insert_beyond (suc i) seq json rest)

  pub append-CountsFrom :
      (i seq : ℕ) (json : Json) (es : List (ℕ × Json))
      → CountsFrom i es
      → seq ≡ i + length es
      → CountsFrom i (es ++ (seq, json) ∷ [])
  append-CountsFrom i seq json [] c h = ground arith
  append-CountsFrom i seq json ((s, x) ∷ rest) c h =
      (c.0, append-CountsFrom (suc i) seq json rest c.1 (omega arith))

  pub find-insert_same :
      (seq : ℕ) (json : Json) (es : List (ℕ × Json))
      → find_seq seq (insert_seq seq json es) ≡ some json
  unfolding find_seq insert_seq
  find-insert_same seq json [] = ground arith
  find-insert_same seq json ((s, x) ∷ rest) = ground (arith, find-insert_same seq json rest)
