-- ===== src/Parsing/Numbers.antt =====
-- `signed_int` reads back what `to_string` writes.
use effect_rs.Prelude.{
  ℕ, zero, suc, ◌+◌, ◌-◌, ◌*◌, ◌/◌, ◌%◌, ◌^◌, ◌≡◌, ◌≤◌, ◌<◌, refl, ap, ◌∙◌, Bool, true, false, ◌&&◌,
  not, [], ◌∷◌, ◌++◌, Result, ok, err, arith, ltb, ◌==◌, if◌then◌else◌, Bool-cases, inl, inr,
}
use effect_rs.Parsing.Literals.{
  Text, ParseFailure, invalid_integer, I64, pos, negate, is_digit, digits, value, parse_i64,
  unsigned, signed_int,
}

-- `to_string` of a natural number; a division lowers a positive number, so this fuel is enough.
abbrev pub show_digits : ℕ → ℕ → Text → Text
show_digits zero n text = text
show_digits (suc fuel) n text =
    let more = (48 + n % 10) ∷ text in
    let rest = show_digits fuel (n / 10) more in if n / 10 == 0 then more else rest

abbrev pub show : ℕ → Text
show n = show_digits (suc n) n []

abbrev pub all_digits : Text → Bool
all_digits [] = true
all_digits (c ∷ cs) = is_digit c && all_digits cs

-- A text that begins with no digit.
abbrev pub stops : Text → Bool
stops [] = true
stops (c ∷ cs) = not (is_digit c)

value-show_digits :
    (fuel n : ℕ) (text : Text) → n < fuel → value 0 (show_digits fuel n text) ≡ value n text
value-show_digits zero n text h = absurd (omega arith)
value-show_digits (suc fuel) n text h =
    let less = λ (big : (n / 10 == 0) ≡ false).
      value-show_digits fuel (n / 10) ((48 + n % 10) ∷ text) (ground arith) in
    elim (Bool-cases (n / 10 == 0)) [
      | inl small ↦
          let one : 0 * 10 + (48 + n % 10 - 48) ≡ n = ground arith in
          rw small (ap (λ m. value m text) one)
      | inr big ↦
          let joined : n / 10 * 10 + (48 + n % 10 - 48) ≡ n = omega arith in
          rw big (less big ∙ ap (λ m. value m text) joined)
    ]

all_digits-show :
    (fuel n : ℕ) (text : Text)
    → all_digits text ≡ true
    → all_digits (show_digits fuel n text) ≡ true
all_digits-show zero n text h = h
all_digits-show (suc fuel) n text h =
    ground (arith, all_digits-show fuel (n / 10) ((48 + n % 10) ∷ text))

digits-append :
    (ds rest : Text) → all_digits ds ≡ true → stops rest ≡ true → digits (ds ++ rest) ≡ (ds, rest)
digits-append [] [] a s = refl
digits-append [] (c ∷ cs) a s = ground arith
digits-append (d ∷ ds) rest a s = ground (arith, digits-append ds rest)

show_digits-cons :
    (fuel n c : ℕ) (text : Text)
    → (d : ℕ) × (more : Text) × (show_digits fuel n (c ∷ text) ≡ d ∷ more)
show_digits-cons zero n c text = (c, text, refl)
show_digits-cons (suc fuel) n c text = elim (Bool-cases (n / 10 == 0)) [
  | inl small ↦ (48 + n % 10, c ∷ text, rw small refl)
  | inr big ↦
      let (d, more, e) = show_digits-cons fuel (n / 10) (48 + n % 10) (c ∷ text) in
      (d, more, rw big e)
]

show-cons : (n : ℕ) → (d : ℕ) × (more : Text) × (show n ≡ d ∷ more) × (is_digit d ≡ true)
show-cons n = elim (Bool-cases (n / 10 == 0)) [
  | inl small ↦ (48 + n % 10, [], rw small refl, ground arith)
  | inr big ↦
      let (d, more, e) = show_digits-cons n (n / 10) (48 + n % 10) [] in
      let digit = all_digits-show (suc n) n [] refl in
      (d, more, rw big e, ground (arith, big, e, digit))
]

unsigned-show :
    (negative : Bool) (n : ℕ) (rest : Text)
    → stops rest ≡ true
    → unsigned negative (show n ++ rest)
      ≡ (elim (parse_i64 negative (show n)) [ ok i ↦ ok (i, rest) | err e ↦ err e ])
unfolding unsigned
unsigned-show negative n rest s =
    let (d, more, e, digit) = show-cons n in
    let split = digits-append (show n) rest (all_digits-show (suc n) n [] refl) s in
    ground (arith, split, e)

-- `signed_int` reads back the decimal digits of a number of at most 2^63 before a text that begins
-- with no digit, and leaves that text: after a minus sign it gives the negation, and with a plus
-- sign or none the number, where 2^63 itself is refused.
pub signed_int-show :
    (n : ℕ) (rest : Text)
    → n ≤ 2 ^ 63
    → stops rest ≡ true
    → let unsigned_answer : Result (I64 × Text) ParseFailure =
        if ltb n (2 ^ 63) then ok (pos n, rest) else err (invalid_integer false) in
      (signed_int (45 ∷ show n ++ rest) ≡ ok (negate n, rest))
      × (signed_int (43 ∷ show n ++ rest) ≡ unsigned_answer)
      × (signed_int (show n ++ rest) ≡ unsigned_answer)
unfolding signed_int parse_i64
signed_int-show n rest small s =
    let (d, more, e, digit) = show-cons n in
    let read = value-show_digits (suc n) n [] (omega arith) in
    let minus = unsigned-show true n rest s in
    let plain = unsigned-show false n rest s in
    (
      ground (arith, minus, read),
      ground (arith, plain, read),
      ground (arith, e, digit, plain, read),
    )
