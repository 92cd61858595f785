-- ===== src/Tests/Parsers.antt =====
-- Runs of the parsers.
use effect_rs.Prelude.{
  ℕ, ◌≡◌, ◌<◌, refl, some, List, [], ◌∷◌, ◌++◌, ok, err, arith, ◌⊎◌, length, any, false, ◌==◌,
}
use effect_rs.Parsing.Parser.{Parser, many, many1, sep_by, void}
use effect_rs.Parsing.Literals.{
  Text, ParseFailure, pos, negsuc, negate, char, signed_int, expected_integer,
}
use effect_rs.Parsing.Loops.{Chain, Separated, Consumes, many-Chain, sep_by-Separated}
use effect_rs.Parsing.Pretty.{Doc, text, cat, break_, group, render, fill}
use effect_rs.Parsing.Layouts.{ink, content, flattened, ink-render, render-group_fits}
use effect_rs.Parsing.Numbers.{show, signed_int-show}

-- "aab"
abbrev aab : Text
aab = 97 ∷ 97 ∷ 98 ∷ []

many_a : many 4 (char 97) aab ≡ some (ok (97 ∷ 97 ∷ [], 98 ∷ []))
unfolding many char
many_a = refl

-- "-12x"
int_read : signed_int (45 ∷ 49 ∷ 50 ∷ 120 ∷ []) ≡ ok (negsuc 11, 120 ∷ [])
unfolding signed_int
int_read = refl

-- "1,2," fails, although "1,2" could be read.
trailing_separator :
    sep_by 9 signed_int (void (char 44)) (49 ∷ 44 ∷ 50 ∷ 44 ∷ []) ≡ some (err expected_integer)
unfolding sep_by void char signed_int
trailing_separator = refl

char-Consumes : (c : ℕ) → Consumes length (char c)
unfolding char
char-Consumes c [] j x h = cc
char-Consumes c (d ∷ ds) j x h = ground arith

many-Chain_example :
    ((xs : List ℕ) × (rest : Text) × (many 4 (char 97) aab ≡ some (ok (xs, rest)))
      × Chain (char 97) aab xs rest)
    × (((e : ParseFailure) × (char 97 aab ≡ err e) × (many1 4 (char 97) aab ≡ some (err e)))
        ⊎ ((x : ℕ) × (xs : List ℕ) × (rest : Text) × (many1 4 (char 97) aab
              ≡ some (ok (x ∷ xs, rest)))
            × Chain (char 97) aab (x ∷ xs) rest))
many-Chain_example = many-Chain length (char 97) 4 aab (char-Consumes 97) (omega arith)

abbrev comma : Parser Text Unit ParseFailure
comma = void (char 44)

sep-Consumes :
    (i j k : Text) (x : ℕ) → comma i ≡ ok (tt, j) → char 97 j ≡ ok (x, k) → length k < length i
unfolding void char
sep-Consumes [] j k x h g = cc
sep-Consumes (c ∷ cs) [] k x h g = cc
sep-Consumes (c ∷ cs) (d ∷ ds) k x h g = ground arith

-- "a,a;"
abbrev two_as : Text
two_as = 97 ∷ 44 ∷ 97 ∷ 59 ∷ []

sep_by-Separated_example :
    ((e : ParseFailure) × (char 97 two_as ≡ err e)
      × (sep_by 5 (char 97) comma two_as ≡ some (err e)))
    ⊎ ((x : ℕ) × (i : Text) × (char 97 two_as ≡ ok (x, i))
        × (((xs : List ℕ) × (rest : Text) × (e : ParseFailure) × (sep_by 5 (char 97) comma two_as
                ≡ some (ok (x ∷ xs, rest)))
              × Separated (char 97) comma i xs rest
              × (comma rest ≡ err e))
            ⊎ ((xs : List ℕ) × (j k : Text) × (e : ParseFailure) × (sep_by 5 (char 97) comma two_as
                  ≡ some (err e))
                × Separated (char 97) comma i xs j
                × (comma j ≡ ok (tt, k))
                × (char 97 k ≡ err e))))
sep_by-Separated_example =
    sep_by-Separated length (char 97) comma 5 two_as (char-Consumes 97) sep-Consumes (omega arith)

signed_int-show_example :
    (signed_int (45 ∷ show 12 ++ 44 ∷ []) ≡ ok (negate 12, 44 ∷ []))
    × (signed_int (43 ∷ show 12 ++ 44 ∷ []) ≡ ok (pos 12, 44 ∷ []))
    × (signed_int (show 12 ++ 44 ∷ []) ≡ ok (pos 12, 44 ∷ []))
signed_int-show_example = signed_int-show 12 (44 ∷ []) (omega arith) refl

-- "a", "b" and "c" with soft breaks between them.
abbrev filled : Doc
filled = fill (text (97 ∷ []) ∷ text (98 ∷ []) ∷ text (99 ∷ []) ∷ [])

filled_wide : render filled 5 ≡ 97 ∷ 32 ∷ 98 ∷ 32 ∷ 99 ∷ []
unfolding render fill
filled_wide = refl

filled_narrow : render filled 4 ≡ 97 ∷ 10 ∷ 98 ∷ 10 ∷ 99 ∷ []
unfolding render fill
filled_narrow = refl

ink-render_example : ink (render filled 4) ≡ content filled
ink-render_example = ink-render filled 4

abbrev soft : Doc
soft = cat (text (97 ∷ [])) (cat break_ (text (98 ∷ [])))

render-group_fits_example :
    (render (group soft) 3 ≡ flattened soft) × (any (λ c. c == 10) (render (group soft) 3) ≡ false)
render-group_fits_example = render-group_fits soft 3 refl (omega arith) (omega arith)
