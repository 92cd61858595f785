-- ===== src/Optics/Paths.antt =====
-- crates/id_effect_optics/src/path.rs: paths as texts and as segments. A text is the list of its
-- characters' codes.
use effect_rs.Prelude.{
  ℕ, zero, suc, ◌+◌, ◌-◌, ◌*◌, ◌/◌, ◌%◌, ◌^◌, Bool, true, false, ◌&&◌, Option, none, some, List, [],
  ◌∷◌, ◌++◌, ltb, leb, ◌==◌, if◌then◌else◌,
}

abbrev pub Text : Type 0
Text = List ℕ

abbrev pub text_eq : Text → Text → Bool
text_eq [] [] = true
text_eq (a ∷ as_) (b ∷ bs) = a == b && text_eq as_ bs
text_eq _ _ = false

pub data PathSegment : Type 0 where
  field : Text → PathSegment
  index : ℕ → PathSegment
  append : PathSegment

-- `str::split` at one character.
push_char : ℕ → List Text → List Text
push_char c [] = (c ∷ []) ∷ []
push_char c (t ∷ ts) = (c ∷ t) ∷ ts

split : ℕ → Text → List Text
split at_ [] = [] ∷ []
split at_ (c ∷ cs) = let rest = split at_ cs in if c == at_ then [] ∷ rest else push_char c rest

-- The digits of `str::parse::<usize>`, most significant first.
read_digits : ℕ → Text → Option ℕ
read_digits n [] = if ltb n (2 ^ 64) then some n else none
read_digits n (c ∷ cs) = if leb 48 c && leb c 57 then read_digits (n * 10 + (c - 48)) cs else none

-- `str::parse::<usize>`: a leading `+` is read over.
parse_usize : Text → Option ℕ
parse_usize [] = none
parse_usize (c ∷ []) = read_digits 0 (c ∷ [])
parse_usize (c ∷ d ∷ cs) = if c == 43 then read_digits 0 (d ∷ cs) else read_digits 0 (c ∷ d ∷ cs)

unfoldable pub parse_segment : Text → PathSegment
unfolding parse_usize read_digits
parse_segment segment =
    if text_eq segment (45 ∷ [])
    then append
    else elim (parse_usize segment) [ some i ↦ index i | none ↦ field segment ]

parse_each : List Text → List PathSegment
unfolding parse_segment
parse_each [] = []
parse_each (t ∷ ts) = parse_segment t ∷ parse_each ts

unfoldable pub parse_dot_path : Text → List PathSegment
unfolding parse_each split push_char
parse_dot_path path = parse_each (split 46 path)

-- `str::replace` of `~` and a character by one character.
replace_tilde : ℕ → ℕ → Text → Text
replace_tilde digit by [] = []
replace_tilde digit by (c ∷ []) = c ∷ []
replace_tilde digit by (c ∷ d ∷ cs) =
    if c == 126 && d == digit
    then by ∷ replace_tilde digit by cs
    else c ∷ replace_tilde digit by (d ∷ cs)

unfoldable pub decode_json_pointer_segment : Text → Text
unfolding replace_tilde
decode_json_pointer_segment segment = replace_tilde 48 126 (replace_tilde 49 47 segment)

-- `trim_start_matches('/')`
trim_slashes : Text → Text
trim_slashes [] = []
trim_slashes (c ∷ cs) = if c == 47 then trim_slashes cs else c ∷ cs

decode_each : List Text → List PathSegment
unfolding parse_segment decode_json_pointer_segment
decode_each [] = []
decode_each (t ∷ ts) = parse_segment (decode_json_pointer_segment t) ∷ decode_each ts

unfoldable pub parse_json_pointer : Text → List PathSegment
unfolding decode_each split push_char trim_slashes
parse_json_pointer path =
    if text_eq path (47 ∷ []) then [] else decode_each (split 47 (trim_slashes path))

-- No path is refused: the source's result is always `Ok`.
unfoldable pub parse_path : Text → List PathSegment
unfolding parse_json_pointer parse_dot_path
parse_path [] = []
parse_path (c ∷ cs) = if c == 47 then parse_json_pointer (c ∷ cs) else parse_dot_path (c ∷ cs)

-- `usize::to_string`: a division lowers a positive number, so fuel above the number is enough.
show_digits : ℕ → ℕ → Text → Text
show_digits zero n digits = digits
show_digits (suc fuel) n digits =
    let more = (48 + n % 10) ∷ digits in
    elim (n / 10) [ zero ↦ more | suc k ↦ show_digits fuel (suc k) more ]

show_usize : ℕ → Text
show_usize n = show_digits (suc n) n []

show_segment : PathSegment → Text
unfolding show_usize show_digits
show_segment (field name) = name
show_segment (index i) = show_usize i
show_segment append = 45 ∷ []

unfoldable pub segments_to_dot : List PathSegment → Text
unfolding show_segment
segments_to_dot [] = []
segments_to_dot (s ∷ []) = show_segment s
segments_to_dot (s ∷ t ∷ ss) = show_segment s ++ 46 ∷ segments_to_dot (t ∷ ss)
