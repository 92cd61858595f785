-- ===== src/Parsing/Loops.antt =====
-- What the repeating parsers read, and that they end.
use effect_rs.Prelude.{
  ℕ, zero, suc, ◌≡◌, ◌<◌, refl, ◌∙◌, some, List, [], ◌∷◌, ◌++◌, ok, err, arith, Result-cases, inl,
  inr, ◌⊎◌,
}
use effect_rs.Coordination.Offers.{snoc-append, append_nil}
use effect_rs.Parsing.Parser.{Parser, many_loop, many, many1, sep_loop, sep_by}

module _ {I O E : Type 0} where
  -- Items read one after the other, up to the first failure.
  pub data Chain (inner : Parser I O E) : I → List O → I → Type 0 where
    stop : {i : I} {e : E} → inner i ≡ err e → Chain inner i [] i
    more :
        {i j k : I} {x : O} {xs : List O}
        → inner i ≡ ok (x, j)
        → Chain inner j xs k
        → Chain inner i (x ∷ xs) k

  -- A success leaves less input.
  abbrev pub Consumes : (I → ℕ) → Parser I O E → Type 0
  Consumes size inner = (i j : I) (x : O) → inner i ≡ ok (x, j) → size j < size i

  many_loop-Chain :
      (size : I → ℕ) (inner : Parser I O E) (fuel : ℕ) (out : List O) (input : I)
      → Consumes size inner
      → size input < fuel
      → (xs : List O) × (rest : I) × (many_loop fuel inner out input ≡ some (ok (out ++ xs, rest)))
        × Chain inner input xs rest
  unfolding many_loop
  many_loop-Chain size inner zero out input c enough = absurd (omega arith)
  many_loop-Chain size inner (suc fuel) out input c enough = elim (Result-cases (inner input)) [
    | inr (e, failed) ↦ ([], input, rw (many_loop, failed, append_nil out) refl, stop failed)
    | inl ((x, next), read) ↦
        let less = c input next x read in
        let (xs, rest, run, chain) =
          many_loop-Chain size inner fuel (out ++ x ∷ []) next c (omega (arith, less)) in
        (x ∷ xs, rest, rw (many_loop, read) (run ∙ rw (snoc-append out x xs) refl), more read chain)
  ]

  -- For a parser that leaves less input whenever it succeeds, and fuel above the size of the input,
  -- `many` ends and succeeds: it gives the items that the parser reads one after the other, and what
  -- is left where it first fails; and `many1` fails with the parser's first error, or else does the
  -- same with at least one item.
  pub many-Chain :
      (size : I → ℕ) (inner : Parser I O E) (fuel : ℕ) (input : I)
      → Consumes size inner
      → size input < fuel
      → ((xs : List O) × (rest : I) × (many fuel inner input ≡ some (ok (xs, rest)))
          × Chain inner input xs rest)
        × (((e : E) × (inner input ≡ err e) × (many1 fuel inner input ≡ some (err e)))
            ⊎ ((x : O) × (xs : List O) × (rest : I) × (many1 fuel inner input
                  ≡ some (ok (x ∷ xs, rest)))
                × Chain inner input (x ∷ xs) rest))
  unfolding many many1
  many-Chain size inner fuel input c enough = (
    many_loop-Chain size inner fuel [] input c enough,
    elim (Result-cases (inner input)) [
      | inr (e, failed) ↦ inl (e, failed, rw (many1, failed) refl)
      | inl ((x, next), read) ↦
          let less = c input next x read in
          let (xs, rest, run, chain) =
            many_loop-Chain size inner fuel (x ∷ []) next c (omega (arith, less)) in
          inr (x, xs, rest, rw (many1, read) run, more read chain)
    ],
  )

  -- Items after separators, up to where no separator follows.
  pub data Separated (value : Parser I O E) (separator : Parser I Unit E)
      : I → List O → I → Type 0 where
    last : {i : I} → Separated value separator i [] i
    next :
        {i j k l : I} {x : O} {xs : List O}
        → separator i ≡ ok (tt, j)
        → value j ≡ ok (x, k)
        → Separated value separator k xs l
        → Separated value separator i (x ∷ xs) l

  sep_loop-Separated :
      (size : I → ℕ) (value : Parser I O E) (separator : Parser I Unit E) (fuel : ℕ) (out : List O)
      (input : I)
      → ((i j k : I) (x : O) → separator i ≡ ok (tt, j) → value j ≡ ok (x, k) → size k < size i)
      → size input < fuel
      → ((xs : List O) × (rest : I) × (e : E) × (sep_loop fuel value separator out input
            ≡ some (ok (out ++ xs, rest)))
          × Separated value separator input xs rest
          × (separator rest ≡ err e))
        ⊎ ((xs : List O) × (i j : I) × (e : E) × (sep_loop fuel value separator out input
              ≡ some (err e))
            × Separated value separator input xs i
            × (separator i ≡ ok (tt, j))
            × (value j ≡ err e))
  unfolding sep_loop
  sep_loop-Separated size value separator zero out input c enough = absurd (omega arith)
  sep_loop-Separated size value separator (suc fuel) out input c enough =
      elim (Result-cases (separator input)) [
        | inr (e, failed) ↦
            inl ([], input, e, rw (sep_loop, failed, append_nil out) refl, last, failed)
        | inl ((tt, after), found) ↦ elim (Result-cases (value after)) [
          | inr (e, failed) ↦
              inr ([], input, after, e, rw (sep_loop, found, failed) refl, last, found, failed)
          | inl ((x, rest), read) ↦
              let less = c input after rest x found read in
              elim (sep_loop-Separated size value separator fuel (out ++ x ∷ []) rest c
                (omega (arith, less))) [
                  | inl (xs, end, e, run, chain, none_left) ↦ inl (
                    x ∷ xs,
                    end,
                    e,
                    rw (sep_loop, found, read) (run ∙ rw (snoc-append out x xs) refl),
                    next found read chain,
                    none_left,
                  )
                  | inr (xs, i, j, e, run, chain, sep, failed) ↦ inr (
                    x ∷ xs,
                    i,
                    j,
                    e,
                    rw (sep_loop, found, read) run,
                    next found read chain,
                    sep,
                    failed,
                  )
                ]
        ]
      ]

  -- For fuel above the size of the input, where a separator and the value after it leave less
  -- input, `sep_by` ends. It fails with the first value's error; or it succeeds with the first value
  -- and those that follow separators, and leaves what begins with no separator; or it fails with the
  -- error of a value that is missing after a separator.
  pub sep_by-Separated :
      (size : I → ℕ) (value : Parser I O E) (separator : Parser I Unit E) (fuel : ℕ) (input : I)
      → Consumes size value
      → ((i j k : I) (x : O) → separator i ≡ ok (tt, j) → value j ≡ ok (x, k) → size k < size i)
      → size input < fuel
      → ((e : E) × (value input ≡ err e) × (sep_by fuel value separator input ≡ some (err e)))
        ⊎ ((x : O) × (i : I) × (value input ≡ ok (x, i))
            × (((xs : List O) × (rest : I) × (e : E) × (sep_by fuel value separator input
                    ≡ some (ok (x ∷ xs, rest)))
                  × Separated value separator i xs rest
                  × (separator rest ≡ err e))
                ⊎ ((xs : List O) × (j k : I) × (e : E) × (sep_by fuel value separator input
                      ≡ some (err e))
                    × Separated value separator i xs j
                    × (separator j ≡ ok (tt, k))
                    × (value k ≡ err e))))
  unfolding sep_by
  sep_by-Separated size value separator fuel input c d enough = elim (Result-cases (value input)) [
    | inr (e, failed) ↦ inl (e, failed, rw (sep_by, failed) refl)
    | inl ((x, i), read) ↦
        let less = c input i x read in
        inr (
          x,
          i,
          read,
          elim (sep_loop-Separated size value separator fuel (x ∷ []) i d (omega (arith, less))) [
            | inl (xs, rest, e, run, chain, none_left) ↦
                inl (xs, rest, e, rw (sep_by, read) run, chain, none_left)
            | inr (xs, j, k, e, run, chain, sep, failed) ↦
                inr (xs, j, k, e, rw (sep_by, read) run, chain, sep, failed)
          ],
        )
  ]
