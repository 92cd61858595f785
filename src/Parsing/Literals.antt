-- ===== src/Parsing/Literals.antt =====
-- The parsers of crates/id_effect_parse/src/parser.rs for characters, literals, numbers and white
-- space. A text is the list of its characters' codes.
use effect_rs.Prelude.{
  ℕ, zero, suc, ◌+◌, ◌-◌, ◌*◌, ◌^◌, Bool, true, false, ◌&&◌, ◌||◌, Option, none, some, List, [],
  ◌∷◌, Result, ok, err, ltb, leb, ◌==◌, if◌then◌else◌,
}
use effect_rs.Parsing.Parser.{Parser, map, alt}

abbrev pub Text : Type 0
Text = List ℕ

pub data ParseFailure : Type 0 where
  expected_found : (expected found : ℕ) → ParseFailure
  expected_end : (expected : ℕ) → ParseFailure
  expected_literal : Text → ParseFailure
  expected_integer : ParseFailure
  -- too small or too large
  invalid_integer : (negative : Bool) → ParseFailure

unfoldable pub char : ℕ → Parser Text ℕ ParseFailure
char expected [] = err (expected_end expected)
char expected (found ∷ rest) =
    if found == expected then ok (found, rest) else err (expected_found expected found)

-- `str::strip_prefix`
unfoldable pub strip_prefix : Text → Text → Option Text
strip_prefix [] input = some input
strip_prefix (c ∷ cs) [] = none
strip_prefix (c ∷ cs) (d ∷ ds) = if c == d then strip_prefix cs ds else none

unfoldable pub tag : Text → Parser Text Text ParseFailure
unfolding strip_prefix
tag literal input = elim (strip_prefix literal input) [
  | some rest ↦ ok (literal, rest)
  | none ↦ err (expected_literal literal)
]

abbrev pub is_digit : ℕ → Bool
is_digit c = leb 48 c && leb c 57

-- The digits at the front, and what follows them.
abbrev pub digits : Text → Text × Text
digits [] = ([], [])
digits (c ∷ cs) = let (ds, rest) = digits cs in if is_digit c then (c ∷ ds, rest) else ([], c ∷ cs)

-- An `i64`: the number, or one less than the negated number.
pub data I64 : Type 0 where
  pos negsuc : ℕ → I64

abbrev pub value : ℕ → Text → ℕ
value n [] = n
value n (c ∷ cs) = value (n * 10 + (c - 48)) cs

abbrev pub negate : ℕ → I64
negate zero = pos 0
negate (suc k) = negsuc k

-- `str::parse::<i64>` of a sign and digits, of which there is one.
unfoldable pub parse_i64 : Bool → Text → Result I64 ParseFailure
parse_i64 false ds =
    if ltb (value 0 ds) (2 ^ 63) then ok (pos (value 0 ds)) else err (invalid_integer false)
parse_i64 true ds =
    if leb (value 0 ds) (2 ^ 63) then ok (negate (value 0 ds)) else err (invalid_integer true)

-- What `signed_int` does after the sign.
unfoldable pub unsigned : Bool → Parser Text I64 ParseFailure
unfolding parse_i64
unsigned negative input =
    let (ds, tail) = digits input in
    elim ds [
      | [] ↦ err expected_integer
      | d ∷ more ↦ elim (parse_i64 negative (d ∷ more)) [ ok n ↦ ok (n, tail) | err e ↦ err e ]
    ]

unfoldable pub signed_int : Parser Text I64 ParseFailure
unfolding unsigned
signed_int [] = unsigned false []
signed_int (c ∷ cs) =
    if c == 45
    then unsigned true cs
    else (if c == 43 then unsigned false cs else unsigned false (c ∷ cs))

unfoldable pub bool_lit : Parser Text Bool ParseFailure
unfolding tag map alt
bool_lit =
    alt (map (tag (116 ∷ 114 ∷ 117 ∷ 101 ∷ [])) (λ t. true))
      (map (tag (102 ∷ 97 ∷ 108 ∷ 115 ∷ 101 ∷ [])) (λ t. false))

-- `char::is_ascii_whitespace`: tab, line feed, form feed, carriage return and space.
abbrev pub is_space : ℕ → Bool
is_space c = c == 9 || (c == 10 || (c == 12 || (c == 13 || c == 32)))

unfoldable pub ws : Parser Text Unit ParseFailure
ws [] = ok (tt, [])
ws (c ∷ cs) = if is_space c then ws cs else ok (tt, c ∷ cs)
