-- ===== src/Parsing/Layouts.antt =====
-- What every layout of a pretty document has in common.
use effect_rs.Prelude.{
  ℕ, zero, suc, ◌+◌, ◌%◌, ◌^◌, ◌-◌, ◌≡◌, ◌≤◌, ◌<◌, refl, ◌∙◌, Bool, true, false, ◌||◌, ◌&&◌, not,
  [], ◌∷◌, ◌++◌, any, any-append, ◌==◌, if◌then◌else◌, length, length-append, arith,
}
use effect_rs.Parsing.Literals.{Text}
use effect_rs.Parsing.Pretty.{
  Doc, nil, line, break_, text, cat, nest, group, Mode, flat, broken, spaces, render_impl, render,
}

-- The characters that are neither spaces nor line breaks.
abbrev pub ink : Text → Text
ink [] = []
ink (c ∷ cs) = if c == 32 || c == 10 then ink cs else c ∷ ink cs

-- The ink of the document's texts, in order.
abbrev pub content : Doc → Text
content nil = []
content line = []
content break_ = []
content (text t) = ink t
content (cat left right) = content left ++ content right
content (nest n inner) = content inner
content (group inner) = content inner

ink-append : (xs ys : Text) → ink (xs ++ ys) ≡ ink xs ++ ink ys
ink-append [] ys = refl
ink-append (c ∷ cs) ys = ground (arith, ink-append cs ys)

ink-spaces : (n : ℕ) → ink (spaces n) ≡ []
ink-spaces zero = refl
ink-spaces (suc n) = ink-spaces n

ink-render_impl :
    (doc : Doc) (width indent : ℕ) (mode : Mode)
    → ink (render_impl doc width indent mode) ≡ content doc
unfolding render_impl
ink-render_impl nil width indent mode = refl
ink-render_impl (text t) width indent mode = refl
ink-render_impl line width indent mode = ink-spaces indent
ink-render_impl break_ width indent flat = refl
ink-render_impl break_ width indent broken = ink-spaces indent
ink-render_impl (cat left right) width indent mode =
    let a = ink-render_impl left width indent mode in
    let b = ink-render_impl right width indent mode in
    ink-append (render_impl left width indent mode) (render_impl right width indent mode)
    ∙ rw (a, b) refl
ink-render_impl (nest n inner) width indent mode =
    ink-render_impl inner width ((indent + n) % 2 ^ 64) mode
ink-render_impl (group inner) width indent mode = ground (
  arith,
  ink-render_impl inner (2 ^ 64 - 1) indent flat,
  ink-render_impl inner width indent broken,
)

-- No hard line break, and no text with one.
abbrev pub one_liner : Doc → Bool
one_liner nil = true
one_liner line = false
one_liner break_ = true
one_liner (text t) = not (any (λ c. c == 10) t)
one_liner (cat left right) = one_liner left && one_liner right
one_liner (nest n inner) = one_liner inner
one_liner (group inner) = one_liner inner

-- The text on one line.
abbrev pub flattened : Doc → Text
flattened nil = []
flattened line = []
flattened break_ = 32 ∷ []
flattened (text t) = t
flattened (cat left right) = flattened left ++ flattened right
flattened (nest n inner) = flattened inner
flattened (group inner) = flattened inner

one_liner-flattened :
    (doc : Doc) → one_liner doc ≡ true → any (λ c. c == 10) (flattened doc) ≡ false
one_liner-flattened nil h = refl
one_liner-flattened line h = cc
one_liner-flattened break_ h = refl
one_liner-flattened (text t) h = ground arith
one_liner-flattened (cat left right) h = ground (
  arith,
  any-append (λ c. c == 10) (flattened left) (flattened right),
  one_liner-flattened left,
  one_liner-flattened right,
)
one_liner-flattened (nest n inner) h = one_liner-flattened inner h
one_liner-flattened (group inner) h = one_liner-flattened inner h

render_impl-flat :
    (doc : Doc) (width indent : ℕ)
    → one_liner doc ≡ true
    → length (flattened doc) ≤ width
    → width < 2 ^ 64
    → render_impl doc width indent flat ≡ flattened doc
unfolding render_impl
render_impl-flat nil width indent h fits small = refl
render_impl-flat line width indent h fits small = cc
render_impl-flat break_ width indent h fits small = refl
render_impl-flat (text t) width indent h fits small = refl
render_impl-flat (cat left right) width indent h fits small =
    let total = length-append (flattened left) (flattened right) in
    let a = render_impl-flat left width indent (ground arith) (omega (arith, total)) small in
    let b = render_impl-flat right width indent (ground arith) (omega (arith, total)) small in
    rw (a, b) refl
render_impl-flat (nest n inner) width indent h fits small =
    render_impl-flat inner width ((indent + n) % 2 ^ 64) h fits small
render_impl-flat (group inner) width indent h fits small =
    let one_line = render_impl-flat inner (2 ^ 64 - 1) indent h (omega arith) (omega arith) in
    let unbroken = one_liner-flattened inner h in ground (arith, one_line, unbroken)

-- At every width, a document renders to the same characters, but for spaces and line breaks: those
-- of its texts, in order.
pub ink-render : (doc : Doc) (width : ℕ) → ink (render doc width) ≡ content doc
unfolding render
ink-render doc width = ink-render_impl doc width 0 broken

-- A group without hard line breaks, whose text on one line fits a width below 2^64, renders to that
-- line, which has no line break.
pub render-group_fits :
    (doc : Doc) (width : ℕ)
    → one_liner doc ≡ true
    → length (flattened doc) ≤ width
    → width < 2 ^ 64
    → (render (group doc) width ≡ flattened doc)
      × (any (λ c. c == 10) (render (group doc) width) ≡ false)
unfolding render render_impl
render-group_fits doc width h fits small =
    let one_line = render_impl-flat doc (2 ^ 64 - 1) 0 h (omega arith) (omega arith) in
    let unbroken = one_liner-flattened doc h in
    (ground (arith, one_line, unbroken), ground (arith, one_line, unbroken))
