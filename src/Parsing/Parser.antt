-- ===== src/Parsing/Parser.antt =====
-- crates/id_effect_parse/src/parser.rs: parsers and their combinators. The loops take fuel, and
-- `none` says that it ran out.
use effect_rs.Prelude.{
  ℕ, zero, suc, Option, none, some, List, [], ◌∷◌, ◌++◌, Result, ok, err, ◌>>=◌,
}

-- The output and the input that is left, or an error.
abbrev pub Parser : Type 0 → Type 0 → Type 0 → Type 0
Parser I O E = I → Result (O × I) E

module _ {I O E : Type 0} where
  unfoldable pub map : {U : Type 0} → Parser I O E → (O → U) → Parser I U E
  map inner f input = elim (inner input) [ ok (o, rest) ↦ ok (f o, rest) | err e ↦ err e ]

  unfoldable pub and_then : {U : Type 0} → Parser I O E → (O → Parser I U E) → Parser I U E
  and_then inner f input = elim (inner input) [ ok (o, rest) ↦ f o rest | err e ↦ err e ]

  unfoldable pub alt : Parser I O E → Parser I O E → Parser I O E
  alt first other input = elim (first input) [
    | ok parsed ↦ ok parsed
    | err first_err ↦ elim (other input) [ ok parsed ↦ ok parsed | err e ↦ err first_err ]
  ]

  -- The loop of `many` and `many1`.
  unfoldable pub many_loop : ℕ → Parser I O E → List O → I → Option (Result (List O × I) E)
  many_loop zero inner out input = none
  many_loop (suc fuel) inner out input = elim (inner input) [
    | ok (item, rest) ↦ many_loop fuel inner (out ++ item ∷ []) rest
    | err e ↦ some (ok (out, input))
  ]

  unfoldable pub many : ℕ → Parser I O E → I → Option (Result (List O × I) E)
  unfolding many_loop
  many fuel inner input = many_loop fuel inner [] input

  unfoldable pub many1 : ℕ → Parser I O E → I → Option (Result (List O × I) E)
  unfolding many_loop
  many1 fuel inner input = elim (inner input) [
    | err e ↦ some (err e)
    | ok (first, rest) ↦ many_loop fuel inner (first ∷ []) rest
  ]

  -- The loop of `sep_by`.
  unfoldable pub sep_loop :
      ℕ → Parser I O E → Parser I Unit E → List O → I → Option (Result (List O × I) E)
  sep_loop zero value separator out input = none
  sep_loop (suc fuel) value separator out input = elim (separator input) [
    | err e ↦ some (ok (out, input))
    | ok (u, after_sep) ↦ elim (value after_sep) [
      | err e ↦ some (err e)
      | ok (item, next) ↦ sep_loop fuel value separator (out ++ item ∷ []) next
    ]
  ]

  unfoldable pub sep_by : ℕ → Parser I O E → Parser I Unit E → I → Option (Result (List O × I) E)
  unfolding sep_loop
  sep_by fuel value separator input = elim (value input) [
    | err e ↦ some (err e)
    | ok (first, rest) ↦ sep_loop fuel value separator (first ∷ []) rest
  ]

  unfoldable pub void : Parser I O E → Parser I Unit E
  unfolding map
  void parser = map parser (λ o. tt)

  unfoldable pub optional : Parser I O E → Parser I (Option O) E
  optional inner input = elim (inner input) [
    | ok (value, rest) ↦ ok (some value, rest)
    | err e ↦ ok (none, input)
  ]

  unfoldable pub between : Parser I Unit E → Parser I Unit E → Parser I O E → Parser I O E
  between open_ close inner input = do
    opened ← open_ input
    parsed ← inner opened.1
    closed ← close parsed.1
    ok (parsed.0, closed.1)

  unfoldable pub parse_all : Parser I O E → I → Result O E
  parse_all parser input = elim (parser input) [ ok (out, rest) ↦ ok out | err e ↦ err e ]
